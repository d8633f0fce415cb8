-- ===== src/Models.antt =====
-- models.py and context.py: the outcome of a task, and the context that every task receives.
use pyntara.Shared.{Bool, true, false, Option, none, some, List, [], ◌∷◌, ◌++◌}
use pyntara.Text.{Text, codes, join}

pub record TaskResult : Type 0 where
  pub success : Bool
  pub changed : Bool
  pub skipped : Bool
  pub message : Option Text
  pub error : Option Text
  pub warnings : List Text

-- `TaskResult(success=…)` with the defaults of the other fields
abbrev pub task_result : Bool → TaskResult
task_result success = record {
  success = success;
  changed = false;
  skipped = false;
  message = none;
  error = none;
  warnings = [];
}

abbrev worded : Text → List Text → Text
worded message [] = message
worded message (w ∷ ws) = message ++ (codes "; warnings: " ++ join (codes "; ") (w ∷ ws))

unfoldable pub warned_result : Bool → Text → List Text → TaskResult
warned_result changed message warnings = record {
  success = true;
  changed = changed;
  skipped = false;
  message = some (worded message warnings);
  error = none;
  warnings = warnings;
}

pub record Context : Type 0 where
  pub install_mode : Text
  pub vault_password : Option Text
  pub vault_source : Option Text
  pub force_tasks : List Text
  pub repo_root : Text
  pub task_data_root : Text
  pub skip_apt_update : Bool
  pub delete_packages_after_install : Bool
  pub task_name : Text

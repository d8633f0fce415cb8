-- ===== src/Entry.antt =====
-- pyntara.py: the entry point of a run. It reads the environment, chooses the mode and the tasks,
-- runs them and ends with an exit code.
pub mod Environment
pub mod Desktop
pub mod Selection
pub mod Tasks
pub mod Summary
pub mod Mode
pub mod Exit
pub mod Chosen
pub mod Account
mod Samples
use pyntara.Shared.{
  ℕ, Bool, true, false, not, Option, none, some, List, [], ◌∷◌, ◌++◌, if◌then◌else◌,
}
use pyntara.Text.{Text, codes, join, sorted}
use pyntara.Models.{Context}
use pyntara.Effects.{event_line, start_banner, Action, pure, ask, emit, ◌>>=◌, ◌>>◌}
use pyntara.Catalog.Data.{TaskSpec}
use pyntara.Runner.{Machine, run_tasks}
use Environment.{env, env_flag}
use Selection.{ProcessCheck, resolve_mode, default_vault_warning, notice_timeout}
use Tasks.{resolve_task_names, resolve_force_tasks}
use Summary.{is_empty, warnings_among, summarize}

-- What a run reads and calls outside itself: the environment (after the export of the desktop
-- session), the process check, the machine that runs the tasks, the stop of the package updaters,
-- and the constants of the checkout.
pub record Host (W : Type 0) : Type 0 where
  pub environ : Text → Option Text
  pub process_check : ProcessCheck W
  pub machine : Machine W
  pub quiesce_package_updaters : W → Unit {0} × W
  pub version : Text
  pub repo_root : Text
  pub task_data_root : Text

-- `if stop_reason is not None: run_warnings.append(stop_reason)`
abbrev pub reason_list : Option Text → List Text
reason_list none = []
reason_list (some reason) = reason ∷ []

abbrev dependencies_line : List Text → Text
dependencies_line [] = codes "Dependencies not added: none"
dependencies_line (name ∷ names) =
    codes "Dependencies not added: " ++ join (codes " ") (name ∷ names)

abbrev pub log_omitted : {W : Type 0} → Bool → List Text → Action W (Unit {0})
log_omitted true omitted = pure tt
log_omitted false omitted = emit (event_line (dependencies_line omitted) false)

abbrev pub log_forced : {W : Type 0} → List Text → Action W (Unit {0})
log_forced [] = pure tt
log_forced (name ∷ names) =
    emit (event_line (codes "Force: " ++ join (codes " ") (sorted (name ∷ names))) false)

module _ {W : Type 0} (fold_code : ℕ → Text) (host : Host W) where
  unfoldable pub run_context : List TaskSpec → Text → List Text → Action W Context
  unfolding resolve_force_tasks env env_flag ◌>>=◌
  run_context tasks mode names = do
    force_tasks ← resolve_force_tasks fold_code tasks host.environ names notice_timeout
    pure (record {
      install_mode = mode;
      vault_password = env host.environ (codes "PYNTARA_VAULT_PASSWORD");
      vault_source = env host.environ (codes "PYNTARA_VAULT_SOURCE");
      force_tasks = force_tasks;
      repo_root = host.repo_root;
      task_data_root = host.task_data_root;
      skip_apt_update = env_flag host.environ fold_code (codes "PYNTARA_SKIP_APT_UPDATE") false;
      delete_packages_after_install =
          env_flag host.environ fold_code (codes "PYNTARA_DELETE_PACKAGES_AFTER_INSTALL") true;
      task_name = [];
    })

  -- The part of `run` behind the check of the catalog.
  unfoldable pub run_catalog : List TaskSpec → Action W ℕ
  unfolding ◌>>=◌
  run_catalog tasks = do
    (mode, mode_warning) ← resolve_mode host.process_check host.environ fold_code
    let add_dependencies =
        not (env_flag host.environ fold_code (codes "PYNTARA_DONT_RUN_DEPENDENT_TASK") false)
    (names, omitted) ←
        resolve_task_names fold_code tasks host.environ mode notice_timeout add_dependencies
    ctx ← run_context tasks mode names
    emit (start_banner host.version mode names)
    log_omitted add_dependencies omitted
    log_forced ctx.force_tasks
    ask host.quiesce_package_updaters
    (results, stop_reason) ← run_tasks host.machine ctx names
    summarize results (
        warnings_among (mode_warning ∷ default_vault_warning ctx.vault_source ∷ [])
        ++ reason_list stop_reason)

  unfoldable pub run : List TaskSpec → Action W ℕ
  unfolding run_catalog ◌>>=◌
  run [] = do
    emit (event_line (codes "Error! the task catalog is empty, nothing to run") true)
    pure 1
  run (task ∷ tasks) = run_catalog (task ∷ tasks)

-- ===== src/Launcher.antt =====
-- launcher_modes.py: the two blocks of the launcher that are written from the catalog.
mod Blocks
mod Settled
mod Apart
mod Generated
mod Rewritten
mod Samples
use mathlib.Core.Option
use pyntara.Shared.{
  ℕ, zero, suc, Bool, true, false, not, Option, none, some, List, [], ◌∷◌, ◌++◌, map, take, ◌==◌,
  nat_eq, list_eq, if◌then◌else◌,
}
use pyntara.Text.{Text, codes, strip, splitlines, join, starts_with}
use pyntara.Effects.{Answer, ok, raised}
use pyntara.Catalog.Data.{catalog, modes}

abbrev pub mode_line_prefix : Text
mode_line_prefix = codes "# PYNTARA_INSTALL_MODE=" ++ 34 ∷ []

abbrev pub mode_assignment_prefix : Text
mode_assignment_prefix = codes "PYNTARA_INSTALL_MODE="

abbrev pub task_line_prefix : Text
task_line_prefix = codes "# PYNTARA_TASKS=" ++ 34 ∷ []

abbrev pub mode_line : (mode : Text) → Text
mode_line mode = mode_line_prefix ++ mode ++ 34 ∷ []

abbrev pub mode_lines : (mode_names : List Text) → List Text
mode_lines mode_names = map mode_line mode_names

abbrev pub task_line : (task_names : List Text) → Text
task_line task_names = task_line_prefix ++ join (32 ∷ []) task_names ++ 34 ∷ []

-- `start if start is not None else index`
abbrev pub start_or : Option ℕ → ℕ → ℕ
start_or none index = index
start_or (some start) index = start

abbrev pub both : Option ℕ → Option ℕ → Option (ℕ × ℕ)
both none last = none
both (some start) none = none
both (some start) (some last) = some (start, last)

abbrev pub is_started : Option ℕ → Bool
is_started none = false
is_started (some start) = true

-- The loop of _block_bounds from line `index` on.
unfoldable pub bounds_from :
    (prefix : Text) → (index : ℕ) → (start last : Option ℕ) → List Text → Option (ℕ × ℕ)
bounds_from prefix index start last [] = both start last
bounds_from prefix index start last (line ∷ lines) =
    let inside = bounds_from prefix (suc index) (some (start_or start index)) (some index) lines in
    let outside = bounds_from prefix (suc index) start last lines in
    if starts_with prefix line
    then inside
    else if is_started start
    then both start last
    else outside

unfoldable pub block_bounds : (lines : List Text) → (prefix : Text) → Option (ℕ × ℕ)
unfolding bounds_from
block_bounds lines prefix = bounds_from prefix 0 none none lines

-- lines[n:]
abbrev pub drop : ℕ → List Text → List Text
drop zero lines = lines
drop (suc n) [] = []
drop (suc n) (line ∷ lines) = drop n lines

abbrev pub replaced_at :
    (lines : List Text)
    → (prefix : Text) → (replacement : List Text) → (what : Text) → Option (ℕ × ℕ)
    → Answer (List Text)
replaced_at lines prefix replacement what none =
    raised (codes "the launcher carries no " ++ what ++ codes " line (" ++ prefix ++ codes "...)")
replaced_at lines prefix replacement what (some (start, last)) =
    ok (take start lines ++ replacement ++ drop (suc last) lines)

unfoldable pub replaced_block :
    (lines : List Text)
    → (prefix : Text) → (replacement : List Text) → (what : Text) → Answer (List Text)
unfolding block_bounds
replaced_block lines prefix replacement what =
    replaced_at lines prefix replacement what (block_bounds lines prefix)

-- The first line that selects a mode outside a comment.
unfoldable pub selecting_line : List Text → Option Text
selecting_line [] = none
selecting_line (line ∷ lines) =
    let later = selecting_line lines in
    if starts_with mode_assignment_prefix line then some line else later

abbrev pub and_then : Answer (List Text) → (List Text → Answer Text) → Answer Text
and_then (ok lines) next = next lines
and_then (raised e) next = raised e

abbrev pub both_replaced :
    (lines : List Text) → (mode_names task_names : List Text) → Option Text → Answer Text
both_replaced lines mode_names task_names (some line) = raised (
    codes "the launcher selects a mode outside a comment ("
    ++ strip line
    ++ codes "): comment it out or drop it, so the generated block can be rewritten without losing "
    ++ codes "a choice")
both_replaced lines mode_names task_names none =
    and_then (replaced_block lines mode_line_prefix (mode_lines mode_names) (codes "mode"))
      (λ replaced.
        and_then
          (replaced_block replaced task_line_prefix (task_line task_names ∷ []) (codes "task list"))
          (λ rewritten. ok (join (10 ∷ []) rewritten ++ 10 ∷ [])))

unfoldable pub rewrite_launcher : (text : Text) → (mode_names task_names : List Text) → Answer Text
unfolding splitlines
rewrite_launcher text mode_names task_names =
    both_replaced (splitlines text) mode_names task_names (selecting_line (splitlines text))

abbrev pub differs : (text : Text) → Answer Text → Bool
differs text (ok rewritten) = not (rewritten == text)
differs text (raised e) = true

unfoldable pub launcher_needs_rewrite : (text : Text) → (mode_names task_names : List Text) → Bool
launcher_needs_rewrite text mode_names task_names =
    differs text (rewrite_launcher text mode_names task_names)

abbrev pub catalog_names : List Text
catalog_names = map (λ task. task.name) catalog

-- What main does: its exit code, whether its line goes to stderr, and the text that it writes.
pub record MainOutcome : Type 0 where
  pub code : ℕ
  pub to_stderr : Bool
  pub written : Option Text

abbrev pub stored : (text : Text) → Answer Text → MainOutcome
stored text (raised e) = record { code = 1; to_stderr = true; written = none }
stored text (ok rewritten) =
    if rewritten == text
    then record { code = 0; to_stderr = false; written = none }
    else record { code = 0; to_stderr = false; written = some rewritten }

-- `launcher` is the text of the file, none when it is no file.
unfoldable pub launcher_main : (check : Bool) → (launcher : Option Text) → MainOutcome
launcher_main check none = record { code = 1; to_stderr = true; written = none }
launcher_main true (some text) =
    if launcher_needs_rewrite text modes catalog_names
    then record { code = 1; to_stderr = true; written = none }
    else record { code = 0; to_stderr = false; written = none }
launcher_main false (some text) = stored text (rewrite_launcher text modes catalog_names)

-- ===== src/Catalog.antt =====
-- task_catalog.py: modes, validation of a selection and the resolution of dependencies. Every
-- function takes the catalog as an argument. `fold_code` is the case folding table of the
-- interpreter.
pub mod Data
mod AddNew
pub mod Lookup
pub mod Depends
pub mod Order
pub mod Resolve
pub mod RunOrder
pub mod Resolved
pub mod Names
pub mod Shipped
mod Samples
use Data.{TaskSpec, modes}
use pyntara.Shared.{
  ℕ, zero, suc, Bool, true, false, not, ◌||◌, Option, none, some, List, [], ◌∷◌, ◌++◌, map, filter,
  any, length, contains, ◌==◌, nat_eq, list_eq, if◌then◌else◌,
}
use pyntara.Text.{Text, strip, replace, casefold}

-- ValueError of `validate_mode`: the name as written.
pub data Validation : Type 0 where
  valid : Validation
  unknown_install_mode : Text → Validation

abbrev pub is_none {ℓ} : {A : Type ℓ} → Option A → Bool
is_none none = true
is_none (some _) = false

abbrev pub get_or {ℓ} : {A : Type ℓ} → Option A → A → A
get_or none d = d
get_or (some a) d = a

-- The dependencies of every task, one after the other: a bound for the walk below.
abbrev pub all_depends : List TaskSpec → List Text
all_depends [] = []
all_depends (t ∷ ts) = t.depends ++ all_depends ts

-- for dep in task.depends: if dep not in found: found.add(dep); stack.append(dep).
-- The top of the stack is the head of the list.
unfoldable pub add_new : List Text → List Text → List Text → List Text × List Text
add_new [] found stack = (found, stack)
add_new (dep ∷ deps) found stack =
    let seen = contains found dep in
    add_new deps (if seen then found else dep ∷ found) (if seen then stack else dep ∷ stack)

-- One round of the loop of `_dependencies_of`, for the name that was popped.
unfoldable pub visit : Option TaskSpec → List Text → List Text → List Text × List Text
unfolding add_new
visit none found stack = (found, stack)
visit (some task) found stack = add_new task.depends found stack

module _ (fold_code : ℕ → Text) where
  unfoldable pub folded_mode_name : Text → Text
  folded_mode_name written = replace b'-' b'_' (casefold fold_code (strip written))

  -- The loop of `canonical_mode_name` over the declared modes.
  unfoldable pub mode_named : Text → List Text → Option Text
  mode_named folded [] = none
  mode_named folded (mode ∷ rest) =
      if folded_mode_name mode == folded then some mode else mode_named folded rest

  unfoldable pub canonical_mode_name : Text → Option Text
  unfolding mode_named folded_mode_name
  canonical_mode_name written = mode_named (folded_mode_name written) modes

  unfoldable pub validate_mode : Text → Validation
  unfolding canonical_mode_name
  validate_mode mode =
      if is_none (canonical_mode_name mode) then unknown_install_mode mode else valid

  unfoldable pub by_name : Text → List TaskSpec → Option TaskSpec
  by_name name [] = none
  by_name name (task ∷ tasks) =
      if casefold fold_code task.name == casefold fold_code name
      then some task
      else by_name name tasks

  unfoldable pub unknown_tasks : List Text → List TaskSpec → List Text
  unknown_tasks names tasks = filter (λ name. is_none (by_name name tasks)) names

  -- `while stack`. `none` means that the fuel ran out.
  unfoldable pub walk : ℕ → List TaskSpec → List Text → List Text → Option (List Text)
  unfolding visit by_name
  walk fuel tasks found [] = some found
  walk zero tasks found (current ∷ stack) = none
  walk (suc fuel) tasks found (current ∷ stack) =
      let (found', stack') = visit (by_name current tasks) found stack in
      walk fuel tasks found' stack'

  unfoldable pub dependencies_of : Text → List TaskSpec → List Text
  unfolding walk
  dependencies_of name tasks =
      get_or (walk (suc (length (all_depends tasks))) tasks [] (name ∷ [])) []

  -- The test of `resolve` for one task of the catalog.
  unfoldable pub is_included : List Text → List TaskSpec → TaskSpec → Bool
  unfolding dependencies_of
  is_included selected tasks task =
      contains (map (casefold fold_code) selected) (casefold fold_code task.name)
      || any (λ selection. contains (dependencies_of selection tasks) task.name) selected

  unfoldable pub resolve : List Text → List TaskSpec → List Text
  unfolding is_included
  resolve selected tasks = map (λ t. t.name) (filter (is_included selected tasks) tasks)

unfoldable pub default_tasks : Text → List TaskSpec → List Text
default_tasks mode tasks = map (λ t. t.name) (filter (λ t. contains t.modes mode) tasks)

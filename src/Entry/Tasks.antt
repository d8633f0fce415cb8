-- ===== src/Entry/Tasks.antt =====
-- pyntara.py: the tasks and the forced tasks of a run.
use pyntara.Shared.{
  ℕ, Bool, not, ◌&&◌, ◌||◌, Option, none, some, List, [], ◌∷◌, ◌++◌, map, filter, any, contains,
  ◌==◌, nat_eq, list_eq, if◌then◌else◌,
}
use pyntara.Text.{Text, codes, split, join, casefold}
use pyntara.Effects.{Action, pure, ◌>>=◌, ◌>>◌}
use pyntara.Catalog.Data.{TaskSpec}
use pyntara.Catalog.{default_tasks, unknown_tasks, resolve}
use pyntara.Entry.Environment.{env}
use pyntara.Entry.Selection.{warn_and_continue, force_all_keyword}

module _ (fold_code : ℕ → Text) where
  -- The names that the selection asks for, in any spelling, and the rest of the resolved set.
  unfoldable pub is_asked_for : List Text → Text → Bool
  is_asked_for selected name =
      contains (map (casefold fold_code) selected) (casefold fold_code name)

  unfoldable pub without_dependencies : List Text → List Text → List Text × List Text
  unfolding is_asked_for
  without_dependencies selected resolved = (
    filter (is_asked_for selected) resolved,
    filter (λ n. not (is_asked_for selected n)) resolved,
  )

  abbrev pub all_keyword : Text
  all_keyword = casefold fold_code force_all_keyword

  unfoldable pub forced : List Text → List Text → List Text
  unfolding is_asked_for
  forced force_names names =
      if any (λ n. casefold fold_code n == all_keyword) force_names
      then names
      else filter (is_asked_for force_names) names

module _ (fold_code : ℕ → Text) (tasks : List TaskSpec) where
  unfoldable pub chosen : List Text → Bool → List Text × List Text
  unfolding without_dependencies
  chosen selected add_dependencies =
      let resolved = resolve fold_code selected tasks in
      if add_dependencies then (resolved, []) else without_dependencies fold_code selected resolved

  -- A name of the force list that is neither the keyword nor a known task of the run set.
  unfoldable pub is_invalid : List Text → Text → Bool
  is_invalid names name =
      not (casefold fold_code name == all_keyword fold_code)
      && (not (contains (map (λ t. casefold fold_code t.name) tasks) (casefold fold_code name))
          || not (contains (map (casefold fold_code) names) (casefold fold_code name)))

module _ {W : Type 0} where
  abbrev pub notice_unknown : List Text → Option ℕ → Action W (Unit {0})
  notice_unknown [] timeout = pure tt
  notice_unknown (name ∷ names) timeout =
      warn_and_continue
        (codes "unknown task names in PYNTARA_TASKS: "
          ++ (join (codes ", ") (name ∷ names) ++ codes "; continuing without them"))
        timeout

  abbrev pub notice_invalid : List Text → Option ℕ → Action W (Unit {0})
  notice_invalid [] timeout = pure tt
  notice_invalid (name ∷ names) timeout =
      warn_and_continue
        (codes "invalid task names in PYNTARA_FORCE_TASKS: "
          ++ (join (codes ", ") (name ∷ names) ++ codes "; continuing without them"))
        timeout

module _ {W : Type 0} (fold_code : ℕ → Text) (tasks : List TaskSpec) where
  -- The selection of PYNTARA_TASKS, or the default tasks of the mode.
  unfoldable pub selection_of : Option Text → Text → Option ℕ → Action W (List Text)
  unfolding ◌>>=◌
  selection_of none mode timeout = pure (default_tasks mode tasks)
  selection_of (some written) mode timeout = do
    notice_unknown (unknown_tasks fold_code (split written) tasks) timeout
    pure (split written)

  unfoldable pub resolve_task_names :
      (Text → Option Text) → Text → Option ℕ → Bool → Action W (List Text × List Text)
  unfolding selection_of chosen env ◌>>=◌
  resolve_task_names environ mode timeout add_dependencies = do
    selected ← selection_of (env environ (codes "PYNTARA_TASKS")) mode timeout
    pure (chosen fold_code tasks selected add_dependencies)

  unfoldable pub force_tasks_of : Option Text → List Text → Option ℕ → Action W (List Text)
  unfolding is_invalid forced ◌>>=◌
  force_tasks_of none names timeout = pure []
  force_tasks_of (some written) names timeout = do
    notice_invalid (filter (is_invalid fold_code tasks names) (split written)) timeout
    pure (forced fold_code (split written) names)

  unfoldable pub resolve_force_tasks :
      (Text → Option Text) → List Text → Option ℕ → Action W (List Text)
  unfolding force_tasks_of env
  resolve_force_tasks environ names timeout =
      force_tasks_of (env environ (codes "PYNTARA_FORCE_TASKS")) names timeout

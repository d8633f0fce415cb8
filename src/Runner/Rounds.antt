-- ===== src/Runner/Rounds.antt =====
-- One round of `run_tasks`, and a rule for its loop.
use pyntara.Shared.{
  ℕ, suc, ◌-◌, ◌≡◌, refl, ◌⊎◌, inl, inr, true, none, some, List, [], ◌∷◌, arith, Option-cases,
}
use pyntara.Text.{Text}
use pyntara.Models.{TaskResult, Context}
use pyntara.Effects.{System, emit, task_start, Answer, ok, raised, ◌>>=◌}
use pyntara.Runner.{
  Machine, warn_result, stop_reason, load_task, run_loaded, run_task, unless_short, run_from,
  disk_shortage_message,
}

-- A result that counts neither as failed nor as missing in the summary of a run.
abbrev pub IsCompleted : TaskResult → Type 0
IsCompleted r = (r.success ≡ true) ⊎ (r.skipped ≡ true)

warn_result-IsCompleted : (r : TaskResult) → IsCompleted (warn_result r)
unfolding warn_result
warn_result-IsCompleted r = ground arith

module _ {W : Type 0} (m : Machine W) (ctx : Context) where
  run_loaded-IsCompleted :
      (name : Text) (a : Answer _) (s : System W) → IsCompleted (run_loaded m ctx name a s).0
  unfolding run_loaded ◌>>=◌
  run_loaded-IsCompleted name (raised text) s = warn_result-IsCompleted _
  run_loaded-IsCompleted name (ok none) s = inr refl
  run_loaded-IsCompleted name (ok (some task)) s = warn_result-IsCompleted _

  -- A round ends with a completed result, whatever the import and the task do.
  pub run_task-IsCompleted : (name : Text) (s : System W) → IsCompleted (run_task m ctx name s).0
  unfolding run_task
  run_task-IsCompleted name s =
      let (_, s') = emit (task_start name) s in
      let (loaded, s'') = load_task m name s' in run_loaded-IsCompleted name loaded s''

  pub run_from-nil :
      (total index : ℕ) (s : System W) → run_from m ctx total index [] s ≡ (([], none), s)
  unfolding run_from
  run_from-nil total index s = refl

  -- A round of the loop: a stop with no results, or a result before those of the other rounds.
  pub run_from-cons :
      (total index : ℕ) (name : Text) (rest : List Text) (s : System W)
      → ((shortage : Text) × (run_from m ctx total index (name ∷ rest) s ≡ (
        ([], some (stop_reason name shortage (total - index) total)),
        (disk_shortage_message m s).1,
      )))
        ⊎ (run_from m ctx total index (name ∷ rest) s ≡ (
          (
            (name, (run_task m ctx name (disk_shortage_message m s).1).0)
                ∷ (run_from m ctx total
                    (suc index)
                    rest
                    (run_task m ctx name (disk_shortage_message m s).1).1).0.0,
            (run_from m ctx total
                (suc index)
                rest
                (run_task m ctx name (disk_shortage_message m s).1).1).0.1,
          ),
          (run_from m ctx total
              (suc index)
              rest
              (run_task m ctx name (disk_shortage_message m s).1).1).1,
        ))
  unfolding run_from
  run_from-cons total index name rest s = elim (Option-cases (disk_shortage_message m s).0) [
    | inl e ↦ inr (rw (e, ◌>>=◌, unless_short))
    | inr (text, e) ↦ inl (text, rw (e, ◌>>=◌, unless_short))
  ]

-- ===== src/Runner/Results.antt =====
-- Which tasks a run reports on, and how it ends.
use pyntara.Shared.{
  ℕ, suc, ◌+◌, ◌-◌, ◌≡◌, refl, sym, ap, subst, ◌⊎◌, inl, inr, Option, none, some, List, [], ◌∷◌,
  ◌++◌, All, arith, length,
}
use pyntara.Text.{Text}
use pyntara.Models.{TaskResult, Context}
use pyntara.Effects.{System}
use pyntara.Runner.{
  Machine, Outcome, stop_reason, run_task, run_from, run_tasks, disk_shortage_message,
}
use pyntara.Runner.Rounds.{IsCompleted, run_task-IsCompleted, run_from-nil, run_from-cons}

abbrev pub names_of : List (Text × TaskResult) → List Text
names_of [] = []
names_of ((name, r) ∷ rest) = name ∷ names_of rest

-- A run reports on every task, or it stopped before one, named by the reason with the number of
-- the tasks that were not started.
abbrev pub IsRun : ℕ → List Text → List (Text × TaskResult) × Option Text → Type 0
IsRun total names (results, stop) =
    ((names_of results ≡ names) × (stop ≡ none))
    ⊎ ((next : Text) × (rest : List Text) × (shortage : Text) × (names_of results ++ next ∷ rest
          ≡ names)
        × (stop ≡ some (stop_reason next shortage (length (next ∷ rest)) total)))

IsRun-cons :
    (total : ℕ) {names : List Text} (name : Text) (r : TaskResult)
    (o : List (Text × TaskResult) × Option Text)
    → IsRun total names o
    → IsRun total (name ∷ names) ((name, r) ∷ o.0, o.1)
IsRun-cons total name r o (inl (e, done)) = inl (ap (λ l. name ∷ l) e, done)
IsRun-cons total name r o (inr (next, rest, shortage, e, stopped)) =
    inr (next, rest, shortage, ap (λ l. name ∷ l) e, stopped)

module _ {W : Type 0} (m : Machine W) (ctx : Context) where
  run_from-IsRun :
      (total index : ℕ) (names : List Text) (s : System W)
      → index + length names ≡ total
      → IsRun total names (run_from m ctx total index names s).0
  run_from-IsRun total index [] s fits =
      subst (λ (o : Outcome m × System W). IsRun total [] o.0)
        (sym (run_from-nil m ctx total index s)) (inl (refl, refl))
  run_from-IsRun total index (name ∷ rest) s fits =
      elim (run_from-cons m ctx total index name rest s) [
        | inl (shortage, e) ↦
            let left : total - index ≡ length (name ∷ rest) = omega arith in
            subst (λ (o : Outcome m × System W). IsRun total (name ∷ rest) o.0) (sym e)
              (inr (
                name,
                rest,
                shortage,
                refl,
                ap (λ k. some (stop_reason name shortage k total)) left,
              ))
        | inr e ↦
            let s' = (disk_shortage_message m s).1 in
            let ih =
              run_from-IsRun total (suc index) rest (run_task m ctx name s').1 (omega arith) in
            subst (λ (o : Outcome m × System W). IsRun total (name ∷ rest) o.0) (sym e)
              (IsRun-cons total name (run_task m ctx name s').0 _ ih)
      ]

  run_from-IsCompleted :
      (total index : ℕ) (names : List Text) (s : System W)
      → All (λ o. IsCompleted o.1) (run_from m ctx total index names s).0.0
  run_from-IsCompleted total index [] s =
      subst (λ (o : Outcome m × System W). All (λ p. IsCompleted p.1) o.0.0)
        (sym (run_from-nil m ctx total index s)) tt
  run_from-IsCompleted total index (name ∷ rest) s =
      elim (run_from-cons m ctx total index name rest s) [
        | inl (shortage, e) ↦
            subst (λ (o : Outcome m × System W). All (λ p. IsCompleted p.1) o.0.0) (sym e) tt
        | inr e ↦
            let s' = (disk_shortage_message m s).1 in
            subst (λ (o : Outcome m × System W). All (λ p. IsCompleted p.1) o.0.0) (sym e)
              (
                run_task-IsCompleted m ctx name s',
                run_from-IsCompleted total (suc index) rest (run_task m ctx name s').1,
              )
      ]

  -- Every result of a run is completed or skipped, and never a failure: no import, task or cleanup
  -- that raises what the code catches ends the run. The results are those of the given names in order; the run reports on
  -- all of them, or it stopped short of disk before one of them, and then the reason names that
  -- task and counts the tasks that were not started.
  pub run_tasks_reports :
      (names : List Text) (s : System W)
      → All (λ o. IsCompleted o.1) (run_tasks m ctx names s).0.0
        × IsRun (length names) names (run_tasks m ctx names s).0
  unfolding run_tasks
  run_tasks_reports names s = (
    run_from-IsCompleted (length names) 0 names s,
    run_from-IsRun (length names) 0 names s (omega arith),
  )

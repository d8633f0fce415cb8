-- ===== src/Runner/Trace.antt =====
-- What a run writes to its log.
use pyntara.Shared.{
  ℕ, suc, ◌-◌, ◌≡◌, refl, sym, ap, subst, ◌∙◌, inl, inr, true, Option, none, some, List, [], ◌∷◌,
  ◌++◌, append-nil, append_assoc, length, Bool-cases,
}
use pyntara.Text.{Text}
use pyntara.Models.{TaskResult, Context}
use pyntara.Effects.{
  Event, task_start, result_line, progress, event_line, countdown, start_banner, Answer, ok, raised,
  System, emit, ◌>>=◌,
}
use pyntara.Runner.{
  Machine, Outcome, report_space, disk_shortage_message, load_task, cache_problem,
  free_download_cache, run_loaded, run_task, run_from, run_tasks, warn_result, answered,
}
use pyntara.Runner.Rounds.{run_from-nil, run_from-cons}

-- The announcement of a task and the line of its outcome, without the time it took.
pub data Mark : Type 0 where
  begun : Text → Mark
  reported : Text → TaskResult → Mark

abbrev pub marks : List Event → List Mark
marks [] = []
marks (task_start name ∷ log) = begun name ∷ marks log
marks (result_line name result took to_journal ∷ log) = reported name result ∷ marks log
marks (progress text ∷ log) = marks log
marks (event_line text to_stderr ∷ log) = marks log
marks (countdown n ∷ log) = marks log
marks (start_banner v mode names ∷ log) = marks log

abbrev pub marks_of : List (Text × TaskResult) → List Mark
marks_of [] = []
marks_of ((name, result) ∷ rest) = begun name ∷ reported name result ∷ marks_of rest

marks-append : (xs ys : List Event) → marks (xs ++ ys) ≡ marks xs ++ marks ys
marks-append [] ys = refl
marks-append (task_start name ∷ xs) ys = ap (λ l. begun name ∷ l) (marks-append xs ys)
marks-append (result_line name result took j ∷ xs) ys =
    ap (λ l. reported name result ∷ l) (marks-append xs ys)
marks-append (progress text ∷ xs) ys = marks-append xs ys
marks-append (event_line text e ∷ xs) ys = marks-append xs ys
marks-append (countdown n ∷ xs) ys = marks-append xs ys
marks-append (start_banner v mode names ∷ xs) ys = marks-append xs ys

module _ {W : Type 0} (m : Machine W) where
  marks-report_space :
      (a : Answer ℕ) (s : System W) → marks (report_space m a s).1.log ≡ marks s.log
  unfolding report_space ◌>>=◌
  marks-report_space (ok free) s = refl
  marks-report_space (raised text) s = marks-append s.log _ ∙ append-nil (marks s.log)

  marks-disk_shortage_message :
      (s : System W) → marks (disk_shortage_message m s).1.log ≡ marks s.log
  unfolding disk_shortage_message ◌>>=◌
  marks-disk_shortage_message s =
      let (a, w) = m.free_space s.world in marks-report_space a (record s { world = w })

  marks-cache_problem :
      (a : Answer (Unit {0})) (s : System W) → marks (cache_problem m a s).1.log ≡ marks s.log
  unfolding ◌>>=◌
  marks-cache_problem (ok u) s = refl
  marks-cache_problem (raised text) s = marks-append s.log _ ∙ append-nil (marks s.log)

  marks-free_download_cache :
      (ctx : Context) (s : System W) → marks (free_download_cache m ctx s).1.log ≡ marks s.log
  unfolding free_download_cache ◌>>=◌
  marks-free_download_cache ctx s = elim (Bool-cases ctx.delete_packages_after_install) [
    | inl economize ↦
        let (a, w) = m.apt_clean s.world in
        rw economize (marks-cache_problem a (record s { world = w }))
    | inr keep ↦ rw keep
  ]

  -- The line of the outcome, and the cleanup behind it.
  marks-closing :
      (ctx : Context) (name : Text) (r : TaskResult) (took : Option ℕ) (s : System W)
      → marks (free_download_cache m ctx (emit (result_line name r took true) s).1).1.log
        ≡ marks s.log ++ reported name r ∷ []
  marks-closing ctx name r took s =
      marks-free_download_cache ctx (emit (result_line name r took true) s).1
      ∙ (unfold emit in marks-append s.log (result_line name r took true ∷ []))

  marks-run_loaded :
      (ctx : Context) (name : Text) (a : Answer _) (s : System W)
      → marks (run_loaded m ctx name a s).1.log
        ≡ marks s.log ++ reported name (run_loaded m ctx name a s).0 ∷ []
  unfolding run_loaded ◌>>=◌
  marks-run_loaded ctx name (raised text) s = marks-closing ctx name _ none s
  marks-run_loaded ctx name (ok none) s = marks-closing ctx name _ none s
  marks-run_loaded ctx name (ok (some task)) s =
      let (start, w) = m.monotonic (m.start_delay s.world).1 in
      let (a, w') = task (record ctx { task_name = name }) w in
      let (end, w'') = m.monotonic w' in
      marks-closing ctx name (warn_result (answered a)) (some (end - start))
        (record s { world = w'' })

  log-load_task : (name : Text) (s : System W) → (load_task m name s).1.log ≡ s.log
  unfolding load_task ◌>>=◌
  log-load_task name s = refl

  marks-run_task :
      (ctx : Context) (name : Text) (s : System W)
      → marks (run_task m ctx name s).1.log
        ≡ marks s.log ++ begun name ∷ reported name (run_task m ctx name s).0 ∷ []
  unfolding run_task
  marks-run_task ctx name s =
      let (_, s') = emit (task_start name) s in
      let (loaded, s'') = load_task m name s' in
      marks-run_loaded ctx name loaded s''
      ∙ ap (λ l. l ++ reported name (run_loaded m ctx name loaded s'').0 ∷ [])
          (ap marks (log-load_task name s')
            ∙ (unfold emit in marks-append s.log (task_start name ∷ [])))
      ∙ append_assoc (marks s.log) (begun name ∷ []) _

  abbrev IsTraced : System W → Outcome m × System W → Type 0
  IsTraced s (o, s') = marks s'.log ≡ marks s.log ++ marks_of o.0

  run_from-IsTraced :
      (ctx : Context) (total index : ℕ) (names : List Text) (s : System W)
      → IsTraced s (run_from m ctx total index names s)
  run_from-IsTraced ctx total index [] s =
      subst (IsTraced s) (sym (run_from-nil m ctx total index s)) (sym (append-nil (marks s.log)))
  run_from-IsTraced ctx total index (name ∷ rest) s =
      let s' = (disk_shortage_message m s).1 in
      let quiet = marks-disk_shortage_message s in
      elim (run_from-cons m ctx total index name rest s) [
        | inl (shortage, e) ↦ subst (IsTraced s) (sym e) (quiet ∙ sym (append-nil (marks s.log)))
        | inr e ↦
            let s'' = (run_task m ctx name s').1 in
            subst (IsTraced s) (sym e) (
              run_from-IsTraced ctx total (suc index) rest s''
              ∙ ap (λ l. l ++ marks_of (run_from m ctx total (suc index) rest s'').0.0)
                  (marks-run_task ctx name s'
                    ∙ ap (λ l. l ++ begun name ∷ reported name (run_task m ctx name s').0 ∷ [])
                        quiet)
              ∙ append_assoc (marks s.log) _ _)
      ]

  -- Of the announcements of tasks and the lines with their outcomes, the log of a run gets two for
  -- each result, in the order of the results: the announcement of the task, then the line with
  -- its outcome. So a task that a stop kept from starting is not announced. Other lines of the
  -- log, on the disk, the download cache and the progress, are not counted.
  pub run_tasks_trace :
      (ctx : Context) (names : List Text) (s : System W)
      → marks (run_tasks m ctx names s).1.log
        ≡ marks s.log ++ marks_of (run_tasks m ctx names s).0.0
  unfolding run_tasks
  run_tasks_trace ctx names s = run_from-IsTraced ctx (length names) 0 names s

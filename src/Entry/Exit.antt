-- ===== src/Entry/Exit.antt =====
-- The exit code of a run.
use pyntara.Shared.{
  ℕ, ◌≡◌, refl, ◌↔◌, ◌⊎◌, inl, inr, Bool, true, false, not, Option, none, some, List, [], ◌∷◌, ◌++◌,
  All, arith, Bool-cases, ◌==◌, nat_eq, list_eq,
}
use pyntara.Text.{Text, codes}
use pyntara.Models.{TaskResult, Context}
use pyntara.Effects.{System, emit, start_banner, ask}
use pyntara.Catalog.Data.{TaskSpec}
use pyntara.Runner.{run_tasks}
use pyntara.Runner.Rounds.{IsCompleted}
use pyntara.Runner.Results.{run_tasks_reports}
use pyntara.Entry.Environment.{env, env_flag, non_empty}
use pyntara.Entry.Selection.{
  resolve_mode, default_vault_warning, default_vault_source_name, notice_timeout,
}
use pyntara.Entry.Tasks.{resolve_task_names}
use pyntara.Entry.Summary.{
  Results, names_where, is_failed, is_warned, warnings_among, exit_of, exit_code, summarize,
}
use pyntara.Entry.Mode.{resolve_mode_warning}
use pyntara.Entry.{Host, reason_list, log_omitted, log_forced, run_context, run_catalog, run}

-- A result that gives no warning: the task was skipped, or it warned of nothing.
abbrev pub IsClean : TaskResult → Type 0
IsClean r = (r.skipped ≡ true) ⊎ (r.warnings ≡ [])

names_where-failed :
    (results : Results) → All (λ o. IsCompleted o.1) results → names_where is_failed results ≡ []
names_where-failed [] h = refl
names_where-failed ((name, r) ∷ rest) h = ground (arith, names_where-failed rest h.1)

unwarned-IsClean : (r : TaskResult) → IsCompleted r → is_warned r ≡ false → IsClean r
unwarned-IsClean r done e = elim (Bool-cases r.skipped) [
  | inl skip ↦ inl skip
  | inr run ↦ inr (ground arith)
]

clean→ :
    (results : Results)
    → All (λ o. IsCompleted o.1) results
    → names_where is_warned results ≡ []
    → All (λ o. IsClean o.1) results
clean→ [] done h = tt
clean→ ((name, r) ∷ rest) done h = elim (Bool-cases (is_warned r)) [
  | inl e ↦ absurd (cc (e, h))
  | inr e ↦ (unwarned-IsClean r done.0 e, clean→ rest done.1 (ground arith))
]

→clean : (results : Results) → All (λ o. IsClean o.1) results → names_where is_warned results ≡ []
→clean [] h = refl
→clean ((name, r) ∷ rest) h = ground (arith, →clean rest h.1)

summarize-exit_code :
    {W : Type 0} (results : Results) (warnings : List Text) (s : System W)
    → (summarize results warnings s).0 ≡ exit_code results warnings
unfolding summarize
summarize-exit_code results warnings s = refl

exit_of-zero :
    (warned run_warnings : List Text)
    → (exit_of [] warned run_warnings ≡ 0) ↔ ((warned ≡ []) × (run_warnings ≡ []))
unfolding exit_of
exit_of-zero warned run_warnings = (λ h. (ground arith, ground arith), λ (w, r). rw (w, r))

-- With no failed result a run exits zero exactly when nothing is warned of.
exit_code-zero :
    (results : Results) (warnings : List Text)
    → All (λ o. IsCompleted o.1) results
    → (exit_code results warnings ≡ 0) ↔ (All (λ o. IsClean o.1) results × (warnings ≡ []))
unfolding exit_code
exit_code-zero results warnings done =
    let (to, from) = exit_of-zero (names_where is_warned results) warnings in
    rw (names_where-failed results done)
      (λ h. let (w, r) = to h in (clean→ results done w, r), λ (c, r). from (→clean results c, r))

exit_code_values :
    (results : Results) (warnings : List Text)
    → (exit_code results warnings ≡ 0) ⊎ (exit_code results warnings ≡ 1)
unfolding exit_code exit_of
exit_code_values results warnings = ground arith

warnings-nil :
    (mode_warning vault_warning stop : Option Text)
    → non_empty mode_warning ≡ mode_warning
    → non_empty vault_warning ≡ vault_warning
    → (warnings_among (mode_warning ∷ vault_warning ∷ []) ++ reason_list stop ≡ [])
      ↔ ((mode_warning ≡ none) × (vault_warning ≡ none) × (stop ≡ none))
warnings-nil none none none h k = (λ e. (refl, refl, refl), λ e. refl)
warnings-nil none none (some t) h k = (λ e. absurd (cc), λ (_, _, e). absurd (cc))
warnings-nil none (some []) stop h k = absurd (cc)
warnings-nil none (some (c ∷ t)) stop h k = (λ e. absurd (cc), λ (_, e, _). absurd (cc))
warnings-nil (some []) vault stop h k = absurd (cc)
warnings-nil (some (c ∷ t)) none stop h k = (λ e. absurd (cc), λ (e, _, _). absurd (cc))
warnings-nil (some (c ∷ t)) (some []) stop h k = absurd (cc)
warnings-nil (some (c ∷ t)) (some (d ∷ u)) stop h k = (λ e. absurd (cc), λ (e, _, _). absurd (cc))

default_vault_warning-worded :
    (source : Option Text) → non_empty (default_vault_warning source) ≡ default_vault_warning source
unfolding default_vault_warning
default_vault_warning-worded none = refl
default_vault_warning-worded (some source) =
    elim (Bool-cases (source == default_vault_source_name)) [ inl e ↦ rw e | inr e ↦ rw e ]

-- The steps of a run, in its order, from the state `s`.
module _ {W : Type 0} (fold_code : ℕ → Text) (host : Host W) (tasks : List TaskSpec)
    (s : System W) where
  abbrev pub mode_step : (Text × Option Text) × System W
  mode_step = resolve_mode host.process_check host.environ fold_code s

  abbrev pub add_dependencies : Bool
  add_dependencies =
      not (env_flag host.environ fold_code (codes "PYNTARA_DONT_RUN_DEPENDENT_TASK") false)

  abbrev pub names_step : (List Text × List Text) × System W
  names_step =
      resolve_task_names fold_code tasks host.environ mode_step.0.0 notice_timeout add_dependencies
        mode_step.1

  abbrev pub context_step : Context × System W
  context_step = run_context fold_code host tasks mode_step.0.0 names_step.0.0 names_step.1

  abbrev announced : System W
  announced =
      (log_forced context_step.0.force_tasks
        (log_omitted add_dependencies names_step.0.1
          (emit (start_banner host.version mode_step.0.0 names_step.0.0) context_step.1).1).1).1

  abbrev pub outcome : Results × Option Text
  outcome =
      (run_tasks host.machine context_step.0 names_step.0.0
        (ask host.quiesce_package_updaters announced).1).0

  run_catalog-exit_code :
      (run_catalog fold_code host tasks s).0
      ≡ exit_code outcome.0 (
          warnings_among (mode_step.0.1 ∷ default_vault_warning context_step.0.vault_source ∷ [])
          ++ reason_list outcome.1)
  unfolding run_catalog
  run_catalog-exit_code = summarize-exit_code _ _ _

-- A run of a catalog that is not empty ends with 0 or 1. It ends with 0 exactly when the mode was
-- not substituted, the secrets do not come from the default vault, the run did not stop short of
-- disk, and every task was skipped or finished without a warning.
pub run_exit :
    {W : Type 0} (fold_code : ℕ → Text) (host : Host W) (task : TaskSpec) (tasks : List TaskSpec)
    (s : System W)
    → (((run fold_code host (task ∷ tasks) s).0 ≡ 0)
        ⊎ ((run fold_code host (task ∷ tasks) s).0 ≡ 1))
      × (((run fold_code host (task ∷ tasks) s).0 ≡ 0) ↔ (
          ((mode_step fold_code host (task ∷ tasks) s).0.1 ≡ none)
          × (default_vault_warning (env host.environ (codes "PYNTARA_VAULT_SOURCE")) ≡ none)
          × ((outcome fold_code host (task ∷ tasks) s).1 ≡ none)
          × All (λ o. IsClean o.1) (outcome fold_code host (task ∷ tasks) s).0))
unfolding run run_context
run_exit fold_code host task tasks s =
    let all = task ∷ tasks in
    let source = env host.environ (codes "PYNTARA_VAULT_SOURCE") in
    let (results, stop) = outcome fold_code host all s in
    let mode_warning = (mode_step fold_code host all s).0.1 in
    let reports = run_tasks_reports host.machine _ _ _ in
    let warnings =
      warnings_among (mode_warning ∷ default_vault_warning source ∷ []) ++ reason_list stop in
    let (worded, silent) =
      warnings-nil mode_warning (default_vault_warning source) stop
        (resolve_mode_warning host.process_check host.environ fold_code s)
        (default_vault_warning-worded source) in
    let (to, from) = exit_code-zero results warnings reports.0 in
    rw (run_catalog-exit_code fold_code host all s) (
      exit_code_values results warnings,
      (
        λ h. let (c, w) = to h in let (a, b, d) = worded w in (a, b, d, c),
        λ (a, b, d, c). from (c, silent (a, b, d)),
      ),
    )

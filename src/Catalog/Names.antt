-- ===== src/Catalog/Names.antt =====
-- Modes and task names as a person writes them.
use mathlib.Core.List.Memᴰ
use mathlib.Core.Option.{some-injective}
use pyntara.Shared.{
  ℕ, ◌≡◌, refl, sym, ◌∙◌, ap, ◌≢◌, ◌↔◌, ◌⊎◌, inl, inr, true, false, none, some, List, [], ◌∷◌, Memᴰ,
  arith, filter→Memᴰ, Memᴰ→filter, Bool-cases, Option-cases, contains, ◌==◌, nat_eq, list_eq,
}
use pyntara.Text.{Text, casefold}
use pyntara.Catalog.Data.{TaskSpec, modes}
use pyntara.Catalog.{
  folded_mode_name, mode_named, canonical_mode_name, validate_mode, valid, unknown_install_mode,
  by_name, unknown_tasks, default_tasks, is_none,
}
use pyntara.Catalog.Lookup.{by_name-none, by_name-Memᴰ, by_name-fold}

module _ (fold_code : ℕ → Text) where
  mode_named-some :
      (folded : Text) (declared : List Text) {mode : Text}
      → mode_named fold_code folded declared ≡ some mode
      → Memᴰ mode declared × (folded_mode_name fold_code mode ≡ folded)
  unfolding mode_named
  mode_named-some folded [] h = absurd (cc)
  mode_named-some folded (first ∷ rest) {mode} h =
      elim (Bool-cases (folded_mode_name fold_code first == folded)) [
        | inl same ↦
            let e = some-injective _ _ (rw (same, mode_named) at h) in
            (Memᴰ.head (sym e), ground (arith, e))
        | inr other ↦
            let (m, f) = mode_named-some folded rest {mode = mode} (rw (other, mode_named) at h) in
            (Memᴰ.tail m, f)
      ]

  mode_named-none :
      (folded : Text) (declared : List Text) {mode : Text}
      → mode_named fold_code folded declared ≡ none
      → Memᴰ mode declared
      → folded_mode_name fold_code mode ≢ folded
  unfolding mode_named
  mode_named-none folded [] h m e = Memᴰ.not-nil m
  mode_named-none folded (first ∷ rest) h (Memᴰ.head p) e = ground arith
  mode_named-none folded (first ∷ rest) h (Memᴰ.tail m) e =
      mode_named-none folded rest (ground arith) m e

  -- A written name means a declared mode that folds like it, and `validate_mode` accepts it; or
  -- no declared mode folds like it, and `validate_mode` raises with the name as written.
  pub canonical_mode_name_cases :
      (written : Text)
      → ((mode : Text) × (canonical_mode_name fold_code written ≡ some mode)
          × Memᴰ mode modes
          × (folded_mode_name fold_code mode ≡ folded_mode_name fold_code written)
          × (validate_mode fold_code written ≡ valid))
        ⊎ ((canonical_mode_name fold_code written ≡ none)
            × ((mode : Text)
                → Memᴰ mode modes
                → folded_mode_name fold_code mode ≢ folded_mode_name fold_code written)
            × (validate_mode fold_code written ≡ unknown_install_mode written))
  canonical_mode_name_cases written = elim (Option-cases (canonical_mode_name fold_code written)) [
    | inl h ↦ inr (
      h,
      λ mode m.
          mode_named-none (folded_mode_name fold_code written) modes {mode = mode}
            (unfold canonical_mode_name in h) m,
      unfold validate_mode in rw h,
    )
    | inr (mode, h) ↦
        let (m, e) =
          mode_named-some (folded_mode_name fold_code written) modes {mode = mode}
            (unfold canonical_mode_name in h) in
        inl (mode, h, m, e, unfold validate_mode in rw h)
  ]

  -- The canonical name of a written mode is its own canonical name.
  pub canonical_mode_name_fixed :
      (written mode : Text)
      → canonical_mode_name fold_code written ≡ some mode
      → canonical_mode_name fold_code mode ≡ some mode
  unfolding canonical_mode_name
  canonical_mode_name_fixed written mode h =
      ap (λ f. mode_named fold_code f modes) (mode_named-some _ modes h).1 ∙ h

  by_name_of_Memᴰ :
      (tasks : List TaskSpec) {task : TaskSpec}
      → Memᴰ task tasks
      → is_none (by_name fold_code task.name tasks) ≡ false
  by_name_of_Memᴰ tasks {task} m = elim (Option-cases (by_name fold_code task.name tasks)) [
    | inl h ↦ absurd (by_name-none fold_code task.name tasks h m refl)
    | inr (found, h) ↦ rw h
  ]

  -- A name is unknown exactly when it is among the given ones and no task folds like it.
  pub mem-unknown_tasks :
      (names : List Text) (tasks : List TaskSpec) (name : Text)
      → Memᴰ name (unknown_tasks fold_code names tasks) ↔ (
          Memᴰ name names
          × ((task : TaskSpec)
              → Memᴰ task tasks
              → casefold fold_code task.name ≢ casefold fold_code name))
  unfolding unknown_tasks
  mem-unknown_tasks names tasks name = (
    λ m.
        let (there, h) = filter→Memᴰ (λ n. is_none (by_name fold_code n tasks)) names m in
        (there, λ task. by_name-none fold_code name tasks (ground arith)),
    λ (there, none_fits).
        Memᴰ→filter (λ n. is_none (by_name fold_code n tasks)) names there
          (elim (Option-cases (by_name fold_code name tasks)) [
            | inl h ↦ rw h
            | inr (task, h) ↦ absurd (
                none_fits task (by_name-Memᴰ fold_code name tasks h)
                  (by_name-fold fold_code name tasks h))
          ]),
  )

  -- The default tasks of a mode are known tasks, those whose modes list it.
  default_tasks-known :
      (mode : Text) (tasks : List TaskSpec) (name : Text)
      → Memᴰ name (default_tasks mode tasks)
      → ((task : TaskSpec) × Memᴰ task tasks
          × (task.name ≡ name)
          × (contains task.modes mode ≡ true))
        × (is_none (by_name fold_code name tasks) ≡ false)
  unfolding default_tasks
  default_tasks-known mode tasks name m =
      let (task, kept, e) = Memᴰ.of_map (λ (t : TaskSpec). t.name) _ m in
      let (there, listed) = filter→Memᴰ (λ (t : TaskSpec). contains t.modes mode) tasks kept in
      ((task, there, e, listed), rw (← e) (by_name_of_Memᴰ tasks there))

-- ===== src/Entry/Mode.antt =====
-- Which mode a run applies, and when it warns of a substitution.
use mathlib.Core.List.Memᴰ
use mathlib.Core.Option.{some-injective}
use pyntara.Shared.{
  ℕ, ◌≡◌, refl, sym, ◌∙◌, ◌⊎◌, inl, inr, ◌||◌, Option, none, some, List, [], ◌∷◌, Memᴰ, Bool-cases,
  ◌==◌, list_eq, nat_eq,
}
use pyntara.Text.{Text, codes}
use pyntara.Effects.{System, ◌>>=◌}
use pyntara.Catalog.Data.{modes}
use pyntara.Catalog.{canonical_mode_name}
use pyntara.Catalog.Names.{canonical_mode_name_cases}
use pyntara.Entry.Environment.{env, non_empty}
use pyntara.Entry.Selection.{
  ProcessCheck, is_set, process_running, detect_process, detect_default_mode,
  desktop_detect_processes, mode_warning, mode_of_written, mode_of, resolve_mode,
}

abbrev IsDetected : Text → Type 0
IsDetected mode = (mode ≡ codes "desktop") ⊎ (mode ≡ codes "server")

IsDetected-Memᴰ : (mode : Text) → IsDetected mode → Memᴰ mode modes
IsDetected-Memᴰ mode (inl e) = Memᴰ.tail (Memᴰ.tail (Memᴰ.head e))
IsDetected-Memᴰ mode (inr e) = Memᴰ.tail (Memᴰ.head e)

module _ {W : Type 0} (check : ProcessCheck W) (environ : Text → Option Text) where
  detect_process-IsDetected :
      (names : List Text) (s : System W) → IsDetected (detect_process check names s).0
  unfolding detect_process
  detect_process-IsDetected [] s = inr refl
  detect_process-IsDetected (name ∷ rest) s =
      let (running, s') = process_running check name s in
      elim (Bool-cases running) [
        | inl e ↦ rw (e, ◌>>=◌) (inl refl)
        | inr e ↦ rw (e, ◌>>=◌) (detect_process-IsDetected rest s')
      ]

  detect-IsDetected : (s : System W) → IsDetected (detect_default_mode check environ s).0
  unfolding detect_default_mode
  detect-IsDetected s =
      elim (Bool-cases (
        is_set (env environ (codes "XDG_CURRENT_DESKTOP"))
        || is_set (env environ (codes "DESKTOP_SESSION")))) [
          | inl e ↦ rw e (inl refl)
          | inr e ↦ rw e (detect_process-IsDetected desktop_detect_processes s)
        ]

  module _ (fold_code : ℕ → Text) where
    -- What the run applies for a written name, or for none.
    abbrev pub IsResolved : Option Text → Text → Text × Option Text → Type 0
    IsResolved written detected (mode, warning) =
        ((written ≡ none) × (mode ≡ detected) × (warning ≡ none))
        ⊎ ((name : Text) × (written ≡ some name)
            × (canonical_mode_name fold_code name ≡ some mode)
            × (warning ≡ none))
        ⊎ ((name : Text) × (written ≡ some name)
            × (canonical_mode_name fold_code name ≡ none)
            × (mode ≡ detected)
            × (warning ≡ some (mode_warning name mode)))

    mode_of_written-IsResolved :
        (name : Text) (declared : Option Text)
        → canonical_mode_name fold_code name ≡ declared
        → (s : System W)
        → IsResolved
            (some name)
            (detect_default_mode check environ s).0
            (mode_of_written check environ name declared s).0
    unfolding mode_of_written
    mode_of_written-IsResolved name none e s = inr (inr (name, refl, e, refl, refl))
    mode_of_written-IsResolved name (some mode) e s = elim (Bool-cases (mode == name)) [
      | inl same ↦ rw (same, ◌>>=◌) (inr (inl (name, refl, e, refl)))
      | inr other ↦ rw (other, ◌>>=◌) (inr (inl (name, refl, e, refl)))
    ]

    resolve_mode-IsResolved :
        (s : System W)
        → IsResolved
            (env environ (codes "PYNTARA_INSTALL_MODE"))
            (detect_default_mode check environ s).0
            (resolve_mode check environ fold_code s).0
    unfolding resolve_mode
    resolve_mode-IsResolved s = go (env environ (codes "PYNTARA_INSTALL_MODE"))
      where
        go :
            (written : Option Text)
            → IsResolved written
                (detect_default_mode check environ s).0
                (mode_of check environ fold_code written s).0
        go none = inl (refl, refl, refl)
        go (some name) = mode_of_written-IsResolved name (canonical_mode_name fold_code name) refl s

    canonical-Memᴰ :
        (name : Text) {mode : Text}
        → canonical_mode_name fold_code name ≡ some mode
        → Memᴰ mode modes
    canonical-Memᴰ name e = elim (canonical_mode_name_cases fold_code name) [
      | inl (found, e', m, _, _) ↦ Memᴰ.cast (some-injective _ _ (sym e ∙ e')) m
      | inr (absent, _, _) ↦ absurd (cc (e, absent))
    ]

    IsResolved-Memᴰ :
        {written : Option Text} {detected mode : Text} {warning : Option Text}
        → IsDetected detected
        → IsResolved written detected (mode, warning)
        → Memᴰ mode modes
    IsResolved-Memᴰ found (inl (_, e, _)) = Memᴰ.cast e (IsDetected-Memᴰ _ found)
    IsResolved-Memᴰ found (inr (inl (name, _, e, _))) = canonical-Memᴰ name e
    IsResolved-Memᴰ found (inr (inr (name, _, _, e, _))) = Memᴰ.cast e (IsDetected-Memᴰ _ found)

    -- A run applies a declared mode, whatever the environment says: the mode that the written name
    -- means, or the detected one when none is written or the written name means no mode. It
    -- warns in this last case alone, and the warning names both.
    pub resolve_mode_outcome :
        (s : System W)
        → Memᴰ (resolve_mode check environ fold_code s).0.0 modes
          × IsResolved
              (env environ (codes "PYNTARA_INSTALL_MODE"))
              (detect_default_mode check environ s).0
              (resolve_mode check environ fold_code s).0
    resolve_mode_outcome s = (
      IsResolved-Memᴰ (detect-IsDetected s) (resolve_mode-IsResolved s),
      resolve_mode-IsResolved s,
    )

    warning_is_worded :
        {written : Option Text} {detected mode : Text} {warning : Option Text}
        → IsResolved written detected (mode, warning)
        → non_empty warning ≡ warning
    warning_is_worded (inl (_, _, e)) = rw e
    warning_is_worded (inr (inl (_, _, _, e))) = rw e
    warning_is_worded (inr (inr (name, _, _, _, e))) = rw e (unfold mode_warning in refl)

    -- A warning of a substituted mode is never an empty text.
    pub resolve_mode_warning :
        (s : System W)
        → non_empty (resolve_mode check environ fold_code s).0.1
          ≡ (resolve_mode check environ fold_code s).0.1
    resolve_mode_warning s = warning_is_worded (resolve_mode-IsResolved s)

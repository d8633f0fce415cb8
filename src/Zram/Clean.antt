-- ===== src/Zram/Clean.antt =====
-- A run of configure_zram.py that warns of nothing, and a run after it.
use pyntara.Shared.{
  ℕ, ◌≡◌, refl, sym, ap, subst, ◌∙◌, inl, inr, Bool, true, false, not, ◌&&◌, List, [], ◌∷◌, ◌++◌,
  arith, Bool-cases, ◌==◌, nat_eq, list_eq,
}
use pyntara.Text.{Text}
use pyntara.Zram.Machine.{
  Config, Kernel, Result, done, failed, zram_error, timeout_expired, uncaught, Program, pure, ◌>>=◌,
  followed_by, Outcome,
}
use pyntara.Zram.Reading.{
  active_swap_paths, target_reached, problems, problems_of, verify, range_from,
}
use pyntara.Zram.Steps.{configure_devices}
use pyntara.Zram.Run.{
  summed_up, target, prepare, conclude, bring_up, unless_reached, list_swaps, ensure, read_target,
  configure_zram,
}
use pyntara.Zram.Verified.{append_nil_cases, verify-target_reached}

-- Every end of a program that is done.
abbrev pub Ends : {W A : Type 0} → (A → W → Type 0) → Result A × W → Type 0
Ends P (done a, w) = P a w
Ends P (failed e, w) = Unit

module _ {W A B : Type 0} (m : Program W A) (f : A → Program W B) (P : B → W → Type 0) where
  then-Ends : ((a : A) (w : W) → Ends P (f a w)) → (w : W) → Ends P ((m >>= f) w)
  unfolding ◌>>=◌
  then-Ends h w = go (m w)
    where
      go : (r : Result A × W) → Ends P (followed_by r.0 f r.1)
      go (done a, w') = h a w'
      go (failed e, w') = tt

summed_up-nil : (problems : List Text) → summed_up problems ≡ [] → problems ≡ []
summed_up-nil [] h = refl
summed_up-nil (p ∷ problems) h = absurd (cc)

module _ {W : Type 0} (kernel : Kernel W) (config : Config) where
  -- The active swap can be listed, and shows every device as computed.
  abbrev pub IsReached : ℕ → ℕ → W → Type 0
  IsReached device_count per_device_bytes w =
      (active_paths : List Text) × (active_swap_paths (kernel.show_swaps w) ≡ done active_paths)
      × (target_reached kernel config device_count per_device_bytes w active_paths ≡ true)

  module _ (device_count per_device_bytes : ℕ) where
    abbrev IsHonest : Outcome → W → Type 0
    IsHonest outcome w = outcome.1 ≡ [] → IsReached device_count per_device_bytes w

    verified-IsReached :
        (w : W)
        → verify kernel config device_count per_device_bytes w ≡ done []
        → IsReached device_count per_device_bytes w
    unfolding verify
    verified-IsReached w h = go (active_swap_paths (kernel.show_swaps w)) refl
      where
        go :
            (listed : Result (List Text))
            → active_swap_paths (kernel.show_swaps w) ≡ listed
            → IsReached device_count per_device_bytes w
        go (done paths) e = (
          paths,
          e,
          (verify-target_reached kernel config device_count per_device_bytes w paths e).0 h,
        )
        go (failed (zram_error text)) e =
            absurd (cc (ap (problems_of kernel config device_count per_device_bytes w) e, h))
        go (failed (timeout_expired text)) e =
            absurd (cc (ap (problems_of kernel config device_count per_device_bytes w) e, h))
        go (failed (uncaught text)) e =
            absurd (cc (ap (problems_of kernel config device_count per_device_bytes w) e, h))

    conclude-IsHonest :
        (changed : Bool) (warnings : List Text) (w : W)
        → Ends IsHonest (conclude kernel config device_count per_device_bytes changed warnings w)
    unfolding conclude
    conclude-IsHonest changed warnings w =
        go (verify kernel config device_count per_device_bytes w) refl
      where
        go :
            (r : Result (List Text))
            → verify kernel config device_count per_device_bytes w ≡ r
            → Ends IsHonest
                (followed_by r (λ problems. pure (changed, warnings ++ summed_up problems)) w)
        go (done found) e = λ h.
            let (_, s) = append_nil_cases warnings (summed_up found) h in
            verified-IsReached w (e ∙ ap done (summed_up-nil found s))
        go (failed x) e = tt

    bring_up-IsHonest :
        (existing : List ℕ) (active_paths : List Text) (w : W)
        → Ends IsHonest
            (bring_up kernel config device_count per_device_bytes existing active_paths w)
    unfolding bring_up
    bring_up-IsHonest existing active_paths w =
        then-Ends (prepare kernel config device_count existing active_paths) _ IsHonest
          (λ not_prepared.
            then-Ends (configure_devices kernel config per_device_bytes (range_from 0 device_count))
              _ IsHonest (λ o. conclude-IsHonest o.0 (not_prepared ++ o.1)))
          w

    unless_reached-IsHonest :
        (active_paths : List Text) (w : W)
        → active_swap_paths (kernel.show_swaps w) ≡ done active_paths
        → Ends IsHonest (unless_reached kernel config device_count per_device_bytes active_paths w)
    unfolding unless_reached
    unless_reached-IsHonest active_paths w listed =
        elim (Bool-cases (
          not config.force
          && target_reached kernel config device_count per_device_bytes w active_paths)) [
            | inl there ↦ rw there (λ h. (active_paths, listed, ground arith))
            | inr missing ↦ rw missing (bring_up-IsHonest _ active_paths w)
          ]

    ensure-IsHonest : (w : W) → Ends IsHonest (ensure kernel config device_count per_device_bytes w)
    unfolding ensure list_swaps
    ensure-IsHonest w = elim (Bool-cases (per_device_bytes == 0)) [
      | inl empty ↦ rw empty tt
      | inr sized ↦ rw sized (go (active_swap_paths (kernel.show_swaps w)) refl)
    ]
      where
        go :
            (listed : Result (List Text))
            → active_swap_paths (kernel.show_swaps w) ≡ listed
            → Ends IsHonest
                (followed_by listed (unless_reached kernel config device_count per_device_bytes) w)
        go (done paths) e = unless_reached-IsHonest paths w e
        go (failed x) e = tt

  ends_at :
      {A : Type 0} (P : A → W → Type 0) (r : Result A × W) {a : A} {w : W}
      → r ≡ (done a, w)
      → Ends P r
      → P a w
  ends_at P r e h = subst (Ends P) e h

  ensure_sized :
      (device_count per_device_bytes : ℕ) (w w' : W) {outcome : Outcome}
      → ensure kernel config device_count per_device_bytes w ≡ (done outcome, w')
      → (per_device_bytes == 0) ≡ false
  unfolding ensure
  ensure_sized device_count per_device_bytes w w' h = elim (Bool-cases (per_device_bytes == 0)) [
    | inl empty ↦ absurd (cc (rw empty at h))
    | inr sized ↦ sized
  ]

  ensure-stays :
      (device_count per_device_bytes : ℕ) (w : W)
      → config.force ≡ false
      → (per_device_bytes == 0) ≡ false
      → IsReached device_count per_device_bytes w
      → ensure kernel config device_count per_device_bytes w ≡ (done (false, []), w)
  unfolding ensure list_swaps unless_reached
  ensure-stays device_count per_device_bytes w free sized (paths, listed, reached) =
      rw (sized, listed, reached, free)

  configure_zram-target :
      (w : W) {r : Result (ℕ × ℕ)}
      → target kernel config w ≡ r
      → configure_zram kernel config w ≡ followed_by r (λ t. ensure kernel config t.0 t.1) w
  unfolding configure_zram read_target
  configure_zram-target w e =
      ap (λ (x : Result (ℕ × ℕ)). followed_by x (λ t. ensure kernel config t.0 t.1) w) e

  -- A run that ends without a warning leaves every device as computed, with no device beyond them:
  -- the size, the algorithm and the active swap that the machine shows then are the target's. When
  -- the program is not forced and the machine still has the same target, another run answers that
  -- nothing changed and leaves the machine as it is.
  pub configure_zram_clean :
      (w w' : W) (changed : Bool)
      → configure_zram kernel config w ≡ (done (changed, []), w')
      → (device_count : ℕ) × (per_device_bytes : ℕ) × (target kernel config w
          ≡ done (device_count, per_device_bytes))
        × IsReached device_count per_device_bytes w'
        × (config.force ≡ false
            → target kernel config w' ≡ target kernel config w
            → configure_zram kernel config w' ≡ (done (false, []), w'))
  configure_zram_clean w w' changed h = go (target kernel config w) refl
    where
      go :
          (r : Result (ℕ × ℕ))
          → target kernel config w ≡ r
          → (device_count : ℕ) × (per_device_bytes : ℕ) × (r
              ≡ done (device_count, per_device_bytes))
            × IsReached device_count per_device_bytes w'
            × (config.force ≡ false
                → target kernel config w' ≡ r
                → configure_zram kernel config w' ≡ (done (false, []), w'))
      go (failed x) e = absurd (cc (sym (configure_zram-target w e) ∙ h))
      go (done (n, size)) e =
          let run = sym (configure_zram-target w e) ∙ h in
          let reached =
            ends_at (IsHonest n size) (ensure kernel config n size w) run (ensure-IsHonest n size w)
              refl in
          (
            n,
            size,
            refl,
            reached,
            λ free same.
                configure_zram-target w' same
                ∙ ensure-stays n size w' free (ensure_sized n size w w' run) reached,
          )

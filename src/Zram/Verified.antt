-- ===== src/Zram/Verified.antt =====
-- The verification of a run against the test whether the target is reached.
use pyntara.Shared.{
  ℕ, ◌≡◌, refl, sym, ap, ◌∙◌, ◌↔◌, Bool, true, false, ◌&&◌, List, [], ◌∷◌, ◌++◌, arith, all, length,
  contains, ◌==◌, nat_eq, list_eq, option_eq,
}
use pyntara.Text.{Text, codes}
use pyntara.Zram.Machine.{Config, Kernel, Result, done, failed}
use pyntara.Zram.Reading.{
  device_name, device_path, range_from, active_swap_paths, indices, has_size, has_algorithm,
  target_reached, problem_unless, device_problems, problems_among, problems, problems_of, verify,
}

pub append_nil_cases : {A : Type 0} (xs ys : List A) → xs ++ ys ≡ [] → (xs ≡ []) × (ys ≡ [])
append_nil_cases [] ys h = (refl, h)
append_nil_cases (x ∷ xs) ys h = absurd (cc)

unless-nil : (a : Bool) (x : Text) → problem_unless a x ≡ [] → a ≡ true
unless-nil true x h = refl
unless-nil false x h = absurd (cc)

ready→ :
    (a b c : Bool) (x y z : Text)
    → problem_unless a x ++ (problem_unless b y ++ problem_unless c z) ≡ []
    → a && (b && c) ≡ true
ready→ true true true x y z h = refl
ready→ true true false x y z h = absurd (cc)
ready→ true false c x y z h = absurd (cc)
ready→ false b c x y z h = absurd (cc)

→ready :
    (a b c : Bool) (x y z : Text)
    → a && (b && c) ≡ true
    → problem_unless a x ++ (problem_unless b y ++ problem_unless c z) ≡ []
→ready true true true x y z h = refl
→ready true true false x y z h = absurd (cc)
→ready true false c x y z h = absurd (cc)
→ready false b c x y z h = absurd (cc)

unfoldable done_value : Result (List Text) → List Text
done_value (done l) = l
done_value (failed e) = []

done-injective : (xs ys : List Text) → ◌≡◌ {A = Result (List Text)} (done xs) (done ys) → xs ≡ ys
unfolding done_value
done-injective xs ys h = ap done_value h

module _ {W : Type 0} (kernel : Kernel W) (config : Config) (device_count per_device_bytes : ℕ)
    (w : W) (active_paths : List Text) where
  abbrev is_ready : ℕ → Bool
  is_ready index =
      has_size kernel config device_count per_device_bytes w index
      && (has_algorithm kernel config device_count per_device_bytes w index
          && contains active_paths (device_path config index))

  ready_of_no_problems :
      (index : ℕ)
      → device_problems kernel config device_count per_device_bytes w active_paths index ≡ []
      → is_ready index ≡ true
  unfolding device_problems
  ready_of_no_problems index h =
      ready→ (has_size kernel config device_count per_device_bytes w index)
        (has_algorithm kernel config device_count per_device_bytes w index)
        (contains active_paths (device_path config index))
        (device_name config index ++ codes " disksize mismatch")
        (device_name config index ++ codes " algorithm mismatch")
        (device_name config index ++ codes " not active") h

  no_problems_of_ready :
      (index : ℕ)
      → is_ready index ≡ true
      → device_problems kernel config device_count per_device_bytes w active_paths index ≡ []
  unfolding device_problems
  no_problems_of_ready index h =
      →ready (has_size kernel config device_count per_device_bytes w index)
        (has_algorithm kernel config device_count per_device_bytes w index)
        (contains active_paths (device_path config index))
        (device_name config index ++ codes " disksize mismatch")
        (device_name config index ++ codes " algorithm mismatch")
        (device_name config index ++ codes " not active") h

  all_ready :
      (list : List ℕ)
      → problems_among kernel config device_count per_device_bytes w active_paths list ≡ []
      → all is_ready list ≡ true
  all_ready [] h = refl
  all_ready (index ∷ list) h =
      let (here, rest) =
        append_nil_cases
          (device_problems kernel config device_count per_device_bytes w active_paths index) _ h in
      rw (ready_of_no_problems index here) (all_ready list rest)

  no_problems :
      (list : List ℕ)
      → all is_ready list ≡ true
      → problems_among kernel config device_count per_device_bytes w active_paths list ≡ []
  no_problems [] h = refl
  no_problems (index ∷ list) h =
      rw (no_problems_of_ready index (ground arith)) (no_problems list (ground arith))

  reached→ :
      problems kernel config device_count per_device_bytes w active_paths ≡ []
      → target_reached kernel config device_count per_device_bytes w active_paths ≡ true
  unfolding problems target_reached
  reached→ h =
      let (devices, extra) =
        append_nil_cases
          (problems_among kernel config device_count per_device_bytes w active_paths
            (range_from 0 device_count))
          _ h in
      rw (unless-nil _ _ extra) (all_ready (range_from 0 device_count) devices)

  →reached :
      target_reached kernel config device_count per_device_bytes w active_paths ≡ true
      → problems kernel config device_count per_device_bytes w active_paths ≡ []
  unfolding problems target_reached
  →reached h =
      let (counted, ready) =
        both (length (indices kernel config device_count per_device_bytes w) == device_count) _ h in
      rw (no_problems (range_from 0 device_count) ready, counted)
    where
      both : (a b : Bool) → a && b ≡ true → (a ≡ true) × (b ≡ true)
      both true b h = (refl, h)
      both false b h = absurd (cc)

  verify-problems :
      active_swap_paths (kernel.show_swaps w) ≡ done active_paths
      → verify kernel config device_count per_device_bytes w
        ≡ done (problems kernel config device_count per_device_bytes w active_paths)
  unfolding verify
  verify-problems listed = ap (problems_of kernel config device_count per_device_bytes w) listed

  -- Where the active swap can be listed, the verification finds nothing exactly when the target is
  -- reached.
  pub verify-target_reached :
      active_swap_paths (kernel.show_swaps w) ≡ done active_paths
      → (verify kernel config device_count per_device_bytes w ≡ done [])
        ↔ (target_reached kernel config device_count per_device_bytes w active_paths ≡ true)
  verify-target_reached listed = (
    λ h. reached→ (done-injective _ [] (sym (verify-problems listed) ∙ h)),
    λ h. verify-problems listed ∙ ap done (→reached h),
  )

-- ===== src/Metrics/Backoff.antt =====
-- backoff_delay of src/pyntara/utils.py, for natural numbers: the failures are counted from zero.
use pyntara.Shared.{
  ℕ, zero, suc, false, ◌-◌, ◌*◌, ◌^◌, ◌≤◌, ◌<◌, ◌≡◌, arith, ltb, min, if◌then◌else◌,
}
use native.Mathlib.Nat.{mul-le-mul_left, mul-le-mul_right, pow-zero, pow-succ'}

unfoldable pub backoff_delay : (failures base_seconds multiplier max_seconds : ℕ) → ℕ
backoff_delay failures base_seconds multiplier max_seconds =
    if ltb failures 1
    then base_seconds
    else min (base_seconds * multiplier ^ (failures - 1)) max_seconds

power_zero : (m : ℕ) → m ^ 0 ≡ 1
power_zero m = pow-zero m

power_step : (m n : ℕ) → m ^ suc n ≡ m * m ^ n
power_step m n = pow-succ' m n

-- A factor of at least k does that much.
power_grows : (m n k : ℕ) → k ≤ m → k * m ^ n ≤ m ^ suc n
power_grows m n k h = omega (arith, power_step m n, mul-le-mul_right (m ^ n) h)

power_positive : (m n : ℕ) → 1 ≤ m → 1 ≤ m ^ n
power_positive m zero h = omega (arith, power_zero m)
power_positive m (suc n) h = omega (arith, power_positive m n h, power_grows m n 1 h)

power_above : (m n : ℕ) → 2 ≤ m → n < m ^ n
power_above m zero h = omega (arith, power_zero m)
power_above m (suc n) h = omega (arith, power_above m n h, power_grows m n 2 h)

module _ (base_seconds multiplier : ℕ) (n : ℕ) where
  growth_base : 1 ≤ multiplier → base_seconds ≤ base_seconds * multiplier ^ n
  growth_base m = omega (arith, mul-le-mul_left base_seconds (power_positive multiplier n m))

  growth_above : 1 ≤ base_seconds → 2 ≤ multiplier → n < base_seconds * multiplier ^ n
  growth_above b m = omega (arith, power_above multiplier n m, mul-le-mul_right (multiplier ^ n) b)

  growth_step : 1 ≤ multiplier → base_seconds * multiplier ^ n ≤ base_seconds * multiplier ^ suc n
  growth_step m =
      let step : multiplier ^ n ≤ multiplier ^ suc n =
        omega (arith, power_grows multiplier n 1 m) in
      mul-le-mul_left base_seconds step

module _ (base_seconds multiplier max_seconds : ℕ) where
  abbrev pub delay_after : ℕ → ℕ
  delay_after failures = backoff_delay failures base_seconds multiplier max_seconds

  delay-suc : (n : ℕ) → delay_after (suc n) ≡ min (base_seconds * multiplier ^ n) max_seconds
  unfolding backoff_delay
  delay-suc n =
      let positive : ltb (suc n) 1 ≡ false = ground arith in
      let less : suc n - 1 ≡ n = omega arith in rw (positive, less)

  -- What the pause is to be after so many failures.
  abbrev pub Grows : ℕ → Type 0
  Grows failures =
      (base_seconds ≤ delay_after failures)
      × (delay_after failures ≤ max_seconds)
      × (delay_after failures ≤ delay_after (suc failures))
      × (min failures max_seconds ≤ delay_after failures)

  -- For a base of at least a second that the ceiling is not below, and a multiplier of at least
  -- two, the pause is between the base and the ceiling, never gets shorter with one failure
  -- more, and is at least as long in seconds as there were failures until it is at the ceiling.
  pub backoff_delay_bounds :
      1 ≤ base_seconds
      → 2 ≤ multiplier
      → base_seconds ≤ max_seconds
      → (failures : ℕ) → Grows failures
  unfolding backoff_delay
  backoff_delay_bounds b m h zero =
      let first = delay-suc 0 in
      let base = growth_base base_seconds multiplier 0 (omega arith) in
      (omega arith, omega arith, omega (arith, first, base), omega arith)
  backoff_delay_bounds b m h (suc n) =
      let now = delay-suc n in
      let next = delay-suc (suc n) in
      let base = growth_base base_seconds multiplier n (omega arith) in
      let step = growth_step base_seconds multiplier n (omega arith) in
      let above = growth_above base_seconds multiplier n b m in
      (
        omega (arith, now, base),
        omega (arith, now),
        omega (arith, now, next, step),
        omega (arith, now, above),
      )

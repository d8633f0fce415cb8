-- ===== src/Zram/Target.antt =====
-- The computed target of configure_zram.py.
use native.Mathlib.Nat.{
  mul-mod_left, div-mul-le_self, lt-div-mul-add, div-lt_iff_lt-mul, le-div_iff_mul-le,
}
use pyntara.Shared.{ℕ, ◌+◌, ◌*◌, ◌/◌, ◌%◌, ◌≤◌, ◌<◌, ◌≡◌, false, arith, ◌==◌, nat_eq}
use pyntara.Zram.Machine.{Config, done}
use pyntara.Zram.Reading.{total_bytes, calculate_devices}

nonzero : (n : ℕ) → 0 < n → (n == 0) ≡ false
nonzero n h = ground arith

module _ (config : Config) where
  -- For a scale, a boundary and a number of cores that are not zero there is a target, with one
  -- device for each core. The size is a multiple of the boundary, the devices together do not
  -- exceed the fraction of the memory, and they would exceed it with one boundary more each.
  pub calculate_devices_bounds :
      (ram_kib cpu_count : ℕ)
      → 0 < config.percent_scale
      → 0 < config.alignment_bytes
      → 0 < cpu_count
      → (size : ℕ) × (calculate_devices config ram_kib cpu_count ≡ done (cpu_count, size))
        × (size % config.alignment_bytes ≡ 0)
        × (size * cpu_count ≤ total_bytes config ram_kib)
        × (total_bytes config ram_kib < (size + config.alignment_bytes) * cpu_count)
  unfolding calculate_devices
  calculate_devices_bounds ram_kib cpu_count scaled aligned cores =
      let total = total_bytes config ram_kib in
      let boundary = config.alignment_bytes in
      let size = total / cpu_count / boundary * boundary in
      (
        size,
        rw (nonzero config.percent_scale scaled, nonzero cpu_count cores, nonzero boundary aligned),
        mul-mod_left (total / cpu_count / boundary) boundary,
        (le-div_iff_mul-le cores).0 (div-mul-le_self (total / cpu_count) boundary),
        (div-lt_iff_lt-mul cores).0 (lt-div-mul-add aligned),
      )

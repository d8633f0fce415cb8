-- ===== src/Zram/Run.antt =====
-- configure_zram.py: the whole run, and its result line.
use pyntara.Shared.{
  ℕ, Bool, false, not, ◌&&◌, Option, none, some, List, [], ◌∷◌, ◌++◌, ◌==◌, nat_eq, list_eq,
  if◌then◌else◌,
}
use pyntara.Text.{Text, codes, join}
use pyntara.Zram.Machine.{
  Config, Kernel, zram_error, timeout_expired, uncaught, Result, done, failed, Program, pure, raise,
  ◌>>=◌, bind_result, Outcome,
}
use pyntara.Zram.Reading.{
  read_ram_kib, read_cpu_count, calculate_devices, active_swap_paths, indices, target_reached,
  verify, range_from,
}
use pyntara.Zram.Steps.{
  remove_extra_devices, load_module, read_interface, create_missing, configure_devices,
}

-- `"; ".join(problems)`, when there are any
abbrev pub summed_up : List Text → List Text
summed_up [] = []
summed_up (problem ∷ problems) = join (codes "; ") (problem ∷ problems) ∷ []

module _ {W : Type 0} (kernel : Kernel W) (config : Config) where
  -- The target: the memory and the cores that the machine has now.
  unfoldable pub target : W → Result (ℕ × ℕ)
  target w =
      bind_result (read_ram_kib config (kernel.meminfo w))
        (λ ram_kib. calculate_devices config ram_kib (read_cpu_count config (kernel.cpuinfo w)).0)

  unfoldable pub query_interface : Program W (Bool × List Text)
  query_interface w = (done (read_interface kernel config (kernel.hot_add_mode w)), w)

  -- The devices that are too many go, and the missing ones come: the warnings.
  unfoldable pub prepare : (device_count : ℕ) → List ℕ → List Text → Program W (List Text)
  unfolding query_interface ◌>>=◌
  prepare device_count existing active_paths = do
    not_removed ← remove_extra_devices kernel config existing device_count active_paths
    not_loaded ← load_module kernel config
    (by_read, not_queried) ← query_interface
    not_created ← create_missing kernel config device_count by_read
    pure (not_removed ++ (not_loaded ++ (not_queried ++ not_created)))

  unfoldable pub verified : (device_count per_device_bytes : ℕ) → Program W (List Text)
  verified device_count per_device_bytes w =
      (verify kernel config device_count per_device_bytes w, w)

  unfoldable pub conclude :
      (device_count per_device_bytes : ℕ) → Bool → List Text → Program W Outcome
  unfolding verified ◌>>=◌
  conclude device_count per_device_bytes changed warnings = do
    problems ← verified device_count per_device_bytes
    pure (changed, warnings ++ summed_up problems)

  -- Everything behind the check of the target.
  unfoldable pub bring_up :
      (device_count per_device_bytes : ℕ) → List ℕ → List Text → Program W Outcome
  unfolding ◌>>=◌
  bring_up device_count per_device_bytes existing active_paths = do
    not_prepared ← prepare device_count existing active_paths
    (changed, not_configured) ←
        configure_devices kernel config per_device_bytes (range_from 0 device_count)
    conclude device_count per_device_bytes changed (not_prepared ++ not_configured)

  -- The test whether the target is reached already, and the steps when it is not.
  unfoldable pub unless_reached :
      (device_count per_device_bytes : ℕ) → List Text → Program W Outcome
  unless_reached device_count per_device_bytes active_paths w =
      if not config.force
        && target_reached kernel config device_count per_device_bytes w active_paths
      then (done (false, []), w)
      else bring_up device_count per_device_bytes
          (indices kernel config device_count per_device_bytes w) active_paths w

  unfoldable pub list_swaps : Program W (List Text)
  list_swaps w = (active_swap_paths (kernel.show_swaps w), w)

  unfoldable pub ensure : (device_count per_device_bytes : ℕ) → Program W Outcome
  unfolding ◌>>=◌
  ensure device_count per_device_bytes =
      if per_device_bytes == 0
      then raise (
          zram_error (
            codes
              "the computed device size is 0 bytes, so no device is configured; check the memory fraction and the alignment of the section"))
      else (do active_paths ← list_swaps; unless_reached device_count per_device_bytes active_paths)

  unfoldable pub read_target : Program W (ℕ × ℕ)
  read_target w = (target w, w)

  unfoldable pub configure_zram : Program W Outcome
  unfolding ◌>>=◌
  configure_zram = do
    (device_count, per_device_bytes) ← read_target
    ensure device_count per_device_bytes

  -- The result line of `main` and the exit code; none for an exception that leaves the program.
  pub record Line : Type 0 where
    pub changed : Bool
    pub error : Option Text
    pub warnings : List Text

  abbrev failure_line : Text → Line
  failure_line text = record { changed = false; error = some text; warnings = [] }

  abbrev pub line_of : Result Outcome → Option Line × ℕ
  line_of (done (changed, warnings)) =
      (some (record { changed = changed; error = none; warnings = warnings }), 0)
  line_of (failed (zram_error text)) = (some (failure_line text), 1)
  line_of (failed (timeout_expired text)) = (some (failure_line text), 1)
  line_of (failed (uncaught text)) = (none, 1)

  unfoldable pub main : W → (Option Line × ℕ) × W
  main w = let (result, w') = configure_zram w in (line_of result, w')

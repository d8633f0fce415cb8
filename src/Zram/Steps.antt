-- ===== src/Zram/Steps.antt =====
-- configure_zram.py: the steps that change the machine, and the whole run. A step answers with the
-- warnings that it adds.
use pyntara.Shared.{
  ℕ, zero, suc, ◌-◌, ◌/◌, ◌%◌, Bool, true, false, ◌||◌, Option, none, some, List, [], ◌∷◌, ◌++◌,
  length, ltb, contains, ◌==◌, nat_eq, list_eq, if◌then◌else◌,
}
use pyntara.Text.{Text, codes, strip, decimal}
use pyntara.Effects.{Answer, ok, raised}
use pyntara.Zram.Machine.{
  Config, Ran, missing, overran, ended, Written, written, busy, rejected, Kernel, timeout_expired,
  Result, done, failed, Program, pure, from, call, ◌>>=◌, Outcome,
}
use pyntara.Zram.Reading.{
  int_of, failure_sentence, not_installed, device_name, device_path, indices,
}

-- The sentence of an OSError.
abbrev pub error_of : Written → Option Text
error_of written = none
error_of (busy text) = some text
error_of (rejected text) = some text

abbrev warning_if : Option Text → Text → List Text
warning_if none said = []
warning_if (some text) said = (said ++ text) ∷ []

module _ {W : Type 0} (kernel : Kernel W) (config : Config) where
  -- The attempts that are left. No attempt at all writes nothing and reports nothing.
  unfoldable pub write_with_retry : (W → Written × W) → (attempts : ℕ) → W → Written × W
  write_with_retry write zero w = (written, w)
  write_with_retry write (suc zero) w = write w
  write_with_retry write (suc (suc attempts)) w =
      let (result, w') = write w in
      elim result [
        | written ↦ (written, w')
        | rejected text ↦ (rejected text, w')
        | busy text ↦ write_with_retry write (suc attempts) (kernel.pause w')
      ]

  -- A step that runs a tool: none when it succeeded, or the sentence that says why not. A timeout
  -- is raised.
  abbrev pub tool_failure : Ran → Result (Option Text)
  tool_failure (missing name) = done (some (not_installed name))
  tool_failure (overran text) = failed (timeout_expired text)
  tool_failure (ended returncode stdout stderr) =
      if returncode == 0 then done none else done (some (failure_sentence returncode stdout stderr))

  unfoldable pub run_step : (tool : Text) → (arguments : List Text) → Program W (Option Text)
  unfolding ◌>>=◌
  run_step tool arguments = do ran ← call (kernel.run_tool tool arguments); from (tool_failure ran)

  unfoldable pub deactivate : (active_paths : List Text) → ℕ → Program W (List Text)
  unfolding run_step ◌>>=◌
  deactivate active_paths index =
      if contains active_paths (device_path config index)
      then (do
        problem ← run_step (codes "swapoff") (device_path config index ∷ [])
        pure (
            warning_if problem
              (codes "cannot deactivate " ++ (device_path config index ++ codes ": "))))
      else pure []

  unfoldable pub reset_or_remove : (device_count : ℕ) → ℕ → Program W (List Text)
  unfolding write_with_retry ◌>>=◌
  reset_or_remove device_count index =
      if ltb index device_count
      then (do
        result ← call (
            write_with_retry
              (kernel.write_attribute (device_name config index) (codes "reset") (codes "1"))
              config.reset_busy_attempts)
        pure (
            warning_if (error_of result)
              (codes "cannot reset " ++ (device_name config index ++ codes ": "))))
      else (do
        result ←
            call (
              write_with_retry (kernel.write_hot_remove (decimal index)) config.reset_busy_attempts)
        pure (
            warning_if (error_of result)
              (codes "cannot remove " ++ (device_name config index ++ codes ": "))))

  unfoldable pub remove_extra_devices :
      (existing_indices : List ℕ)
      → (device_count : ℕ) → (active_paths : List Text) → Program W (List Text)
  unfolding deactivate reset_or_remove ◌>>=◌
  remove_extra_devices [] device_count active_paths = pure []
  remove_extra_devices (index ∷ rest) device_count active_paths = do
    still_active ← deactivate active_paths index
    not_reset ← reset_or_remove device_count index
    others ← remove_extra_devices rest device_count active_paths
    pure (still_active ++ (not_reset ++ others))

  unfoldable pub load_module : Program W (List Text)
  unfolding run_step ◌>>=◌
  load_module = do
    problem ← run_step (codes "modprobe") (config.module_name ∷ [])
    pure (warning_if problem (codes "cannot load " ++ (config.module_name ++ codes " module: ")))

  -- Readable by the owner: bit 0o400.
  abbrev pub is_readable : ℕ → Bool
  is_readable mode = mode / 256 % 2 == 1

  -- The interface, and the warning of a query that failed.
  abbrev pub read_interface : Answer ℕ → Bool × List Text
  read_interface (ok mode) = (is_readable mode, [])
  read_interface (raised text) = (false, (codes "cannot query hot_add: " ++ text) ∷ [])

  abbrev add_failure : Text → Text
  add_failure text = codes "cannot add " ++ (config.module_name ++ (codes " devices: " ++ text))

  -- What the read of hot_add answered: none when it is the number of a device.
  abbrev pub read_failure : Answer Text → Option Text
  read_failure (raised text) = some (add_failure text)
  read_failure (ok text) = elim (int_of (strip text)) [
    | some device_id ↦ none
    | none ↦ some (codes "cannot add devices: hot_add returned " ++ kernel.repr (strip text))
  ]

  unfoldable pub add_device : Bool → W → Option Text × W
  add_device true w = let (answer, w') = kernel.read_hot_add w in (read_failure answer, w')
  add_device false w =
      let (result, w') = kernel.write_hot_add (codes "1") w in
      (elim (error_of result) [ none ↦ none | some text ↦ some (add_failure text) ], w')

  -- A failed operation ends the addition.
  unfoldable pub add_devices : (count : ℕ) → Bool → W → Option Text × W
  unfolding add_device
  add_devices zero by_read w = (none, w)
  add_devices (suc count) by_read w =
      let (problem, w') = add_device by_read w in
      elim problem [ none ↦ add_devices count by_read w' | some text ↦ (some text, w') ]

  abbrev listed : Option Text → List Text
  listed none = []
  listed (some text) = text ∷ []

  unfoldable pub create_missing : (device_count : ℕ) → Bool → Program W (List Text)
  unfolding add_devices ◌>>=◌
  create_missing device_count by_read w =
      let (problem, w') =
        add_devices (device_count - length (indices kernel config device_count 0 w)) by_read w in
      (done (listed problem), w')

  abbrev setup_failed : ℕ → Text → List Text
  setup_failed index text = (device_name config index ++ (codes " setup failed: " ++ text)) ∷ []

  abbrev cannot_configure : ℕ → Text → List Text
  cannot_configure index text =
      (codes "cannot configure " ++ (device_name config index ++ (codes ": " ++ text))) ∷ []

  -- The algorithm and the size: the sentence of the first write that fails.
  unfoldable pub write_settings : (per_device_bytes : ℕ) → ℕ → W → Option Text × W
  write_settings per_device_bytes index w =
      let (first, w') =
        kernel.write_attribute (device_name config index) (codes "comp_algorithm") config.compressor
          w in
      elim (error_of first) [
        | some text ↦ (some text, w')
        | none ↦
            let (second, w'') =
              kernel.write_attribute (device_name config index) (codes "disksize")
                (decimal per_device_bytes) w' in
            (error_of second, w'')
      ]

  unfoldable pub activate : ℕ → Program W Outcome
  unfolding run_step ◌>>=◌
  activate index = do
    problem ←
        run_step (codes "swapon")
          (codes "--priority" ∷ decimal config.swap_priority ∷ device_path config index ∷ [])
    pure (elim problem [ none ↦ (true, []) | some text ↦ (false, setup_failed index text) ])

  unfoldable pub format_and_activate : ℕ → Program W Outcome
  unfolding activate ◌>>=◌
  format_and_activate index = do
    problem ← run_step (codes "mkswap") (device_path config index ∷ [])
    elim problem [ none ↦ activate index | some text ↦ pure (false, setup_failed index text) ]

  -- One device: whether it was changed, and the warnings.
  unfoldable pub configure_device : (per_device_bytes : ℕ) → ℕ → Program W Outcome
  unfolding write_settings format_and_activate ◌>>=◌
  configure_device per_device_bytes index = do
    problem ← call (write_settings per_device_bytes index)
    elim problem [
      | none ↦ format_and_activate index
      | some text ↦ pure (false, cannot_configure index text)
    ]

  unfoldable pub configure_devices : (per_device_bytes : ℕ) → List ℕ → Program W Outcome
  unfolding configure_device ◌>>=◌
  configure_devices per_device_bytes [] = pure (false, [])
  configure_devices per_device_bytes (index ∷ rest) = do
    (changed, warnings) ← configure_device per_device_bytes index
    (others_changed, others) ← configure_devices per_device_bytes rest
    pure (changed || others_changed, warnings ++ others)

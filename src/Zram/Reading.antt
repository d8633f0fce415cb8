-- ===== src/Zram/Reading.antt =====
-- configure_zram.py: the computed target, and what is read of the machine.
use pyntara.Shared.{
  ℕ, zero, suc, ◌+◌, ◌-◌, ◌*◌, ◌/◌, Bool, true, false, ◌&&◌, ◌||◌, Option, none, some, List, [],
  ◌∷◌, ◌++◌, filter, all, length, leb, contains, ◌==◌, nat_eq, list_eq, option_eq, if◌then◌else◌,
}
use pyntara.Text.{
  but_last, Text, is_nonempty, codes, strip, split, splitlines, starts_with, ends_with, decimal,
}
use pyntara.Effects.{Answer, ok, raised}
use pyntara.Zram.Machine.{
  Config, Ran, missing, overran, ended, Kernel, zram_error, timeout_expired, uncaught, Result, done,
  failed,
}

abbrev pub is_digit : ℕ → Bool
is_digit c = leb 48 c && leb c 57

unfoldable pub digits_value : ℕ → Text → ℕ
digits_value value [] = value
digits_value value (c ∷ s) = digits_value (value * 10 + (c - 48)) s

-- int(s) of a text of decimal digits; every other text counts as a ValueError.
unfoldable pub int_of : Text → Option ℕ
unfolding digits_value
int_of s = if is_nonempty s && all is_digit s then some (digits_value 0 s) else none

abbrev or_value_error : Option ℕ → Result ℕ
or_value_error (some n) = done n
or_value_error none = failed (uncaught (codes "ValueError"))

-- [*range(start, start + n)]
unfoldable pub range_from : ℕ → ℕ → List ℕ
range_from start zero = []
range_from start (suc n) = start ∷ range_from (suc start) n

abbrev pub insert_number : ℕ → List ℕ → List ℕ
insert_number n [] = n ∷ []
insert_number n (k ∷ ks) = if leb n k then n ∷ k ∷ ks else k ∷ insert_number n ks

abbrev pub sorted_numbers : List ℕ → List ℕ
sorted_numbers [] = []
sorted_numbers (n ∷ ns) = insert_number n (sorted_numbers ns)

-- The first sentence of a failed command: the last line of an output that says something.
abbrev pub last_of : Text → List Text → Text
last_of line [] = line
last_of line (next ∷ lines) = last_of next lines

abbrev stripped : List Text → List Text
stripped [] = []
stripped (line ∷ lines) =
    if is_nonempty (strip line) then strip line ∷ stripped lines else stripped lines

abbrev said : List Text → Option Text
said [] = none
said (line ∷ lines) = some (last_of line lines)

unfoldable pub failure_sentence : (returncode : ℕ) → (stdout stderr : Text) → Text
failure_sentence returncode stdout stderr = elim (said (stripped (splitlines stderr))) [
  | some sentence ↦ sentence
  | none ↦ elim (said (stripped (splitlines stdout))) [
    | some sentence ↦ sentence
    | none ↦ codes "exit code " ++ decimal returncode
  ]
]

abbrev pub not_installed : Text → Text
not_installed name = name ++ codes " is not installed on this machine"

module _ (config : Config) where
  -- The loop over the lines of meminfo.
  unfoldable pub ram_in : List Text → Result ℕ
  unfolding int_of
  ram_in [] = failed (
      zram_error (
        config.meminfo_path
        ++ (codes " carries no " ++ (config.meminfo_total_key ++ codes " line"))))
  ram_in (line ∷ lines) =
      let rest = ram_in lines in
      if starts_with config.meminfo_total_key line
      then elim (split line) [
        | [] ↦ rest
        | first ∷ words ↦ elim words [
          | [] ↦ rest
          | second ∷ others ↦ or_value_error (int_of second)
        ]
      ]
      else rest

  unfoldable pub read_ram_kib : Answer Text → Result ℕ
  unfolding ram_in
  read_ram_kib (raised text) =
      failed (zram_error (codes "cannot read " ++ (config.meminfo_path ++ (codes ": " ++ text))))
  read_ram_kib (ok text) = ram_in (splitlines text)

  -- The count, and whether it is the fallback.
  unfoldable pub read_cpu_count : Answer Text → ℕ × Bool
  read_cpu_count (raised text) = (config.fallback_cpu_count, true)
  read_cpu_count (ok text) =
      let count = length (filter (starts_with config.cpuinfo_processor_key) (splitlines text)) in
      if count == 0 then (config.fallback_cpu_count, true) else (count, false)

  abbrev pub total_bytes : ℕ → ℕ
  total_bytes ram_kib =
      ram_kib * config.bytes_per_kib * config.memory_fraction_percent / config.percent_scale

  -- The number of devices and the size of each. Python raises on a division by zero.
  unfoldable pub calculate_devices : (ram_kib cpu_count : ℕ) → Result (ℕ × ℕ)
  calculate_devices ram_kib cpu_count =
      if config.percent_scale == 0 || (cpu_count == 0 || config.alignment_bytes == 0)
      then failed (uncaught (codes "ZeroDivisionError"))
      else done (
        cpu_count,
        total_bytes ram_kib / cpu_count / config.alignment_bytes * config.alignment_bytes,
      )

  abbrev pub device_name : ℕ → Text
  device_name index = config.module_name ++ decimal index

  abbrev pub device_path : ℕ → Text
  device_path index = codes "/dev/" ++ device_name index

abbrev pub drop_prefix : (prefix s : Text) → Text
drop_prefix [] s = s
drop_prefix (p ∷ prefix) [] = []
drop_prefix (p ∷ prefix) (c ∷ s) = drop_prefix prefix s

-- The indices of the names that are the module name and a number.
unfoldable pub indices_among : Text → List Text → List ℕ
unfolding int_of
indices_among module_name [] = []
indices_among module_name (name ∷ names) =
    let rest = indices_among module_name names in
    if starts_with module_name name
    then elim (int_of (drop_prefix module_name name)) [ none ↦ rest | some index ↦ index ∷ rest ]
    else rest

unfoldable pub existing_device_indices : Text → Option (List Text) → List ℕ
unfolding indices_among
existing_device_indices module_name none = []
existing_device_indices module_name (some names) = sorted_numbers (indices_among module_name names)

unfoldable pub read_disksize : Answer Text → Option ℕ
unfolding int_of
read_disksize (raised text) = none
read_disksize (ok text) = int_of (strip text)

-- token[1:-1]
abbrev pub inside : Text → Text
inside [] = []
inside (c ∷ s) = but_last s

unfoldable pub algorithm_in : List Text → Option Text
algorithm_in [] = none
algorithm_in (token ∷ tokens) =
    if starts_with (codes "[") token && ends_with token b']'
    then some (inside token)
    else algorithm_in tokens

unfoldable pub read_active_algorithm : Answer Text → Option Text
unfolding algorithm_in
read_active_algorithm (raised text) = none
read_active_algorithm (ok text) = algorithm_in (split text)

abbrev pub first_fields : List Text → List Text
first_fields [] = []
first_fields (line ∷ lines) = elim (split line) [
  | [] ↦ first_fields lines
  | field ∷ others ↦ field ∷ first_fields lines
]

unfoldable pub active_swap_paths : Ran → Result (List Text)
unfolding failure_sentence
active_swap_paths (missing name) = failed (zram_error (not_installed name))
active_swap_paths (overran text) = failed (timeout_expired text)
active_swap_paths (ended returncode stdout stderr) =
    if returncode == 0
    then done (first_fields (splitlines stdout))
    else failed (
        zram_error
          (codes "cannot list the active swap: " ++ failure_sentence returncode stdout stderr))

-- if not test: problems.append(problem)
abbrev pub problem_unless : Bool → Text → List Text
problem_unless true problem = []
problem_unless false problem = problem ∷ []

module _ {W : Type 0} (kernel : Kernel W) (config : Config) (device_count per_device_bytes : ℕ)
    (w : W) where
  abbrev pub indices : List ℕ
  indices = existing_device_indices config.module_name (kernel.block_names w)

  abbrev pub has_size : ℕ → Bool
  has_size index =
      read_disksize (kernel.disksize (device_name config index) w) == some per_device_bytes

  abbrev pub has_algorithm : ℕ → Bool
  has_algorithm index =
      read_active_algorithm (kernel.comp_algorithm (device_name config index) w)
      == some config.compressor

  unfoldable pub target_reached : List Text → Bool
  unfolding existing_device_indices read_disksize read_active_algorithm
  target_reached active_paths =
      length indices == device_count
      && all
          (λ index.
            has_size index
            && (has_algorithm index && contains active_paths (device_path config index)))
          (range_from 0 device_count)

  unfoldable pub device_problems : List Text → ℕ → List Text
  device_problems active_paths index =
      problem_unless (has_size index) (device_name config index ++ codes " disksize mismatch")
      ++ (problem_unless (has_algorithm index)
            (device_name config index ++ codes " algorithm mismatch")
          ++ problem_unless (contains active_paths (device_path config index))
              (device_name config index ++ codes " not active"))

  abbrev pub problems_among : List Text → List ℕ → List Text
  problems_among active_paths [] = []
  problems_among active_paths (index ∷ rest) =
      device_problems active_paths index ++ problems_among active_paths rest

  unfoldable pub problems : List Text → List Text
  unfolding device_problems
  problems active_paths =
      problems_among active_paths (range_from 0 device_count)
      ++ problem_unless (length indices == device_count)
          (codes "extra " ++ (config.module_name ++ codes " devices present"))

  unfoldable pub problems_of : Result (List Text) → Result (List Text)
  unfolding problems
  problems_of (done active_paths) = done (problems active_paths)
  problems_of (failed (zram_error text)) =
      done ((codes "cannot verify the active swap: " ++ text) ∷ [])
  problems_of (failed e) = failed e

  unfoldable pub verify : Result (List Text)
  unfolding problems_of active_swap_paths
  verify = problems_of (active_swap_paths (kernel.show_swaps w))

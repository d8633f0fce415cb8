-- ===== src/Zram/Samples.antt =====
-- A small kernel with two cores, and the theorems at it.
use pyntara.Shared.{
  ℕ, suc, ◌*◌, ◌%◌, ◌≤◌, ◌<◌, ◌+◌, ◌≡◌, refl, ◌↔◌, true, false, some, List, [], ◌∷◌, ◌++◌, arith,
  ◌==◌, nat_eq, list_eq, option_eq, if◌then◌else◌,
}
use pyntara.Text.{Text, codes, strip, split, splitlines, starts_with, ends_with, decimal}
use pyntara.Effects.{ok}
use pyntara.Zram.Machine.{Config, ended, written, Kernel, done, ◌>>=◌}
use pyntara.Zram.Reading.{
  calculate_devices, total_bytes, active_swap_paths, target_reached, verify, range_from,
  read_ram_kib, read_cpu_count,
}
use pyntara.Zram.Steps.{remove_extra_devices, load_module, create_missing, configure_devices}
use pyntara.Zram.Run.{
  target, prepare, conclude, bring_up, unless_reached, list_swaps, ensure, read_target,
  configure_zram, main,
}
use pyntara.Zram.Verified.{verify-target_reached}
use pyntara.Zram.Clean.{IsReached, configure_zram_clean}
use pyntara.Zram.Target.{calculate_devices_bounds}

program : Unit {0}
unfolding main configure_zram read_target target ensure list_swaps unless_reached bring_up prepare
    conclude remove_extra_devices load_module create_missing configure_devices read_ram_kib
    read_cpu_count calculate_devices active_swap_paths target_reached verify strip split splitlines
    starts_with ends_with decimal range_from nat_eq list_eq option_eq ◌>>=◌
program = tt

abbrev small_config : Config
small_config = record {
  meminfo_path = codes "/proc/meminfo";
  meminfo_total_key = codes "MemTotal:";
  cpuinfo_processor_key = codes "processor";
  compressor = codes "zstd";
  swap_priority = 100;
  memory_fraction_percent = 50;
  percent_scale = 100;
  fallback_cpu_count = 1;
  alignment_bytes = 16;
  bytes_per_kib = 1024;
  module_name = codes "zram";
  reset_busy_attempts = 3;
  force = false;
}

-- What the machine holds of its two devices: whether they are there, the algorithm, the size, and
-- whether they are active.
record Devices : Type 0 where
  there : ℕ
  algorithm : Text
  size : Text
  active : List Text

abbrev small_kernel : Kernel Devices
small_kernel = record {
  meminfo = λ w. ok (codes "MemTotal: 3 kB");
  cpuinfo = λ w. ok (codes "processor : 0" ++ 10 ∷ codes "processor : 1");
  block_names =
      λ w. some (if w.there == 2 then codes "zram1" ∷ codes "sda" ∷ codes "zram0" ∷ [] else []);
  disksize = λ device w. ok w.size;
  comp_algorithm = λ device w. ok (codes "lzo [" ++ (w.algorithm ++ codes "]"));
  show_swaps = λ w. ended 0 (lines w.active) [];
  hot_add_mode = λ w. ok 384;
  read_hot_add = λ w. (ok (codes "0"), record w { there = suc w.there });
  write_hot_add = λ value w. (written, w);
  write_hot_remove = λ value w. (written, w);
  write_attribute = λ device attribute value w. (
    written,
    if attribute == codes "disksize"
        then record w { size = value }
        else if attribute == codes "comp_algorithm"
        then record w { algorithm = value }
        else w,
  );
  run_tool = λ tool arguments w. (
    ended 0 [] [],
    if tool == codes "swapon" then record w { active = last arguments ∷ w.active } else w,
  );
  pause = λ w. w;
  repr = λ s. s;
}
  where
    lines : List Text → Text
    lines [] = []
    lines (s ∷ ss) = s ++ (codes " partition" ++ 10 ∷ lines ss)

    last : List Text → Text
    last [] = []
    last (s ∷ []) = s
    last (s ∷ t ∷ ss) = last (t ∷ ss)

abbrev bare : Devices
bare = record { there = 0; algorithm = codes "lzo"; size = codes "0"; active = [] }

abbrev ready : Devices
ready = record {
  there = 2;
  algorithm = codes "zstd";
  size = codes "768";
  active = codes "/dev/zram1" ∷ codes "/dev/zram0" ∷ [];
}

small_run : configure_zram small_kernel small_config bare ≡ (done (true, []), ready)
unfolding program
small_run = refl

configure_zram_clean_example :
    (device_count : ℕ) × (per_device_bytes : ℕ) × (target small_kernel small_config bare
      ≡ done (device_count, per_device_bytes))
    × IsReached small_kernel small_config device_count per_device_bytes ready
    × (small_config.force ≡ false
        → target small_kernel small_config ready ≡ target small_kernel small_config bare
        → configure_zram small_kernel small_config ready ≡ (done (false, []), ready))
configure_zram_clean_example =
    configure_zram_clean small_kernel small_config bare ready true small_run

ready_paths :
    active_swap_paths (small_kernel.show_swaps ready)
    ≡ done (codes "/dev/zram1" ∷ codes "/dev/zram0" ∷ [])
unfolding program
ready_paths = refl

verify-target_reached_example : (verify small_kernel small_config 2 768 ready ≡ done []) ↔ (
    target_reached small_kernel small_config 2 768 ready
      (codes "/dev/zram1" ∷ codes "/dev/zram0" ∷ [])
    ≡ true)
verify-target_reached_example =
    verify-target_reached small_kernel small_config 2 768 ready
      (codes "/dev/zram1" ∷ codes "/dev/zram0" ∷ []) ready_paths

scale_positive : 0 < small_config.percent_scale
scale_positive = omega arith

boundary_positive : 0 < small_config.alignment_bytes
boundary_positive = omega arith

two_positive : 0 < 2
two_positive = omega arith

calculate_devices_bounds_example :
    (size : ℕ) × (calculate_devices small_config 3 2 ≡ done (2, size))
    × (size % small_config.alignment_bytes ≡ 0)
    × (size * 2 ≤ total_bytes small_config 3)
    × (total_bytes small_config 3 < (size + small_config.alignment_bytes) * 2)
calculate_devices_bounds_example =
    calculate_devices_bounds small_config 3 2 scale_positive boundary_positive two_positive

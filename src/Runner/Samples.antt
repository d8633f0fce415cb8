-- ===== src/Runner/Samples.antt =====
-- A run of three tasks on a small machine, whose disk fills up, and the theorems about it.
use pyntara.Shared.{
  ℕ, ◌-◌, ◌*◌, ◌≡◌, refl, true, false, none, some, List, [], ◌∷◌, ◌++◌, All, length, ◌==◌, nat_eq,
  list_eq, if◌then◌else◌,
}
use pyntara.Text.{Text, codes, decimal}
use pyntara.Models.{Context}
use pyntara.Effects.{System, ok, raised, ◌>>=◌}
use pyntara.Runner.{
  Import, not_found, imported, Machine, bytes_per_mib, warn_result, load_task, loaded, run_loaded,
  free_download_cache, run_task, run_from, run_tasks, disk_shortage_message, report_space,
  shortage_of,
}
use pyntara.Runner.Rounds.{IsCompleted}
use pyntara.Runner.Results.{names_of, IsRun, run_tasks_reports}
use pyntara.Runner.Trace.{marks, marks_of, run_tasks_trace}

program : Unit {0}
unfolding run_tasks run_from run_task run_loaded load_task loaded warn_result free_download_cache
    disk_shortage_message report_space shortage_of nat_eq list_eq ◌>>=◌
program = tt

abbrev imported_by : Text → Import
imported_by name =
    if name == codes "pyntara.tasks.missing"
    then not_found name (codes "No module named 'pyntara.tasks.missing'")
    else imported true

-- The machine's state counts the free space in MiB; a task that runs uses one and fails.
abbrev small_machine : Machine ℕ
small_machine = record {
  free_space = λ free. (ok (free * bytes_per_mib), free);
  import_module = λ name free. (imported_by name, free);
  call_task = λ name ctx free. (raised (codes "no luck"), free - 1);
  apt_clean = λ free. (raised (codes "locked"), free);
  monotonic = λ free. (free, free);
  start_delay = λ free. (tt, free);
}

abbrev small_context : Context
small_context = record {
  install_mode = codes "server";
  vault_password = none;
  vault_source = none;
  force_tasks = [];
  repo_root = codes "/repo";
  task_data_root = codes "/repo/task_data";
  skip_apt_update = false;
  delete_packages_after_install = true;
  task_name = [];
}

abbrev three_names : List Text
three_names = codes "missing" ∷ codes "zram" ∷ codes "tor" ∷ []

abbrev start : System ℕ
start = record { world = 10; log = [] }

-- With 10 MiB the run passes the missing task, runs the second one and stops before the third.
run_tasks-names :
    names_of (run_tasks small_machine small_context three_names start).0.0
    ≡ codes "missing" ∷ codes "zram" ∷ []
unfolding program
run_tasks-names = refl

run_tasks-stop :
    (run_tasks small_machine small_context three_names start).0.1
    ≡ some (
        codes
          "the run stopped before tor: free space 9 MB is below the reserve 10 MB; 1 of 3 tasks were not started")
unfolding program decimal
run_tasks-stop = refl

run_tasks_reports_example :
    All (λ o. IsCompleted o.1) (run_tasks small_machine small_context three_names start).0.0
    × IsRun
        (length three_names)
        three_names
        (run_tasks small_machine small_context three_names start).0
run_tasks_reports_example = run_tasks_reports small_machine small_context three_names start

run_tasks_trace_example :
    marks (run_tasks small_machine small_context three_names start).1.log
    ≡ marks start.log ++ marks_of (run_tasks small_machine small_context three_names start).0.0
run_tasks_trace_example = run_tasks_trace small_machine small_context three_names start

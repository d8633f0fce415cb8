-- ===== src/Runner.antt =====
-- task_runner.py: the tasks of a run, in order, none of which can stop it; and
-- `disk_shortage_message` and `free_package_download_cache` of utils.py. The machine is a record
-- of calls that leave the program.
pub mod Rounds
pub mod Results
pub mod Trace
mod Samples
use pyntara.Shared.{
  ℕ, zero, suc, ◌+◌, ◌-◌, ◌*◌, ◌/◌, Bool, true, false, Option, none, some, List, [], ◌∷◌, ◌++◌,
  length, leb, ◌==◌, nat_eq, list_eq, if◌then◌else◌,
}
use pyntara.Text.{Text, codes, decimal}
use pyntara.Models.{TaskResult, task_result, Context}
use pyntara.Effects.{
  Event, task_start, result_line, progress, Answer, ok, raised, Action, pure, ask, emit, ◌>>=◌,
  ◌>>◌,
}

-- importlib.import_module: ModuleNotFoundError with its `name` and its text, another exception,
-- or a module, whose attribute `task` is callable or not.
pub data Import : Type 0 where
  not_found : (name text : Text) → Import
  broken : (text : Text) → Import
  imported : (has_task : Bool) → Import

pub record Machine (W : Type 0) : Type 0 where
  -- shutil.disk_usage(DISK_FREE_SPACE_PATH).free
  pub free_space : W → Answer ℕ × W
  pub import_module : Text → W → Import × W
  -- the `task` function of a module, called with a context
  pub call_task : Text → Context → W → Answer TaskResult × W
  -- run_command(apt_clean_command()), which may raise
  pub apt_clean : W → Answer (Unit {0}) × W
  -- time.monotonic in ticks, and time.sleep(TASK_START_DELAY_SECONDS)
  pub monotonic : W → ℕ × W
  pub start_delay : W → Unit {0} × W

-- BYTES_PER_MIB and DISK_RESERVE_BYTES of values/engine.py
abbrev pub bytes_per_mib : ℕ
bytes_per_mib = 1048576

abbrev pub disk_reserve_bytes : ℕ
disk_reserve_bytes = 10 * bytes_per_mib

-- `result.error or "unknown error"`: an empty text counts as none.
abbrev pub text_or : Option Text → Text → Text
text_or none d = d
text_or (some []) d = d
text_or (some (c ∷ s)) d = c ∷ s

unfoldable pub warn_result : TaskResult → TaskResult
warn_result result = if result.success then result else if result.skipped then result else record {
  success = true;
  changed = result.changed;
  skipped = false;
  message = some (text_or result.message (codes "completed with warnings"));
  error = none;
  warnings = text_or result.error (codes "unknown error") ∷ [];
}

abbrev pub module_prefix : Text
module_prefix = codes "pyntara.tasks."

abbrev pub import_failed : Text → TaskResult
import_failed text = record (task_result false) {
  error = some (codes "task import failed: " ++ text);
}

abbrev pub not_implemented : Text → TaskResult
not_implemented name = record (task_result false) {
  skipped = true;
  message = some (codes "task module not implemented: " ++ name);
}

abbrev pub task_raised : Text → TaskResult
task_raised text = record (task_result false) { error = some text }

abbrev pub answered : Answer TaskResult → TaskResult
answered (ok result) = result
answered (raised text) = task_raised text

-- The sentence of a measured filesystem.
unfoldable pub shortage_of : ℕ → Option Text
shortage_of free =
    if leb disk_reserve_bytes free
    then none
    else some (
        codes "free space "
        ++ (decimal (free / bytes_per_mib)
            ++ (codes " MB is below the reserve "
                ++ (decimal (disk_reserve_bytes / bytes_per_mib) ++ codes " MB"))))

-- The reason why a run stopped before `name`, with `left` of `total` tasks not started.
unfoldable pub stop_reason : Text → Text → ℕ → ℕ → Text
stop_reason name shortage left total =
    codes "the run stopped before "
    ++ (name
        ++ (codes ": "
            ++ (shortage
                ++ (codes "; "
                    ++ (decimal left
                        ++ (codes " of " ++ (decimal total ++ codes " tasks were not started")))))))

module _ {W : Type 0} (m : Machine W) where
  unfoldable pub report_space : Answer ℕ → Action W (Option Text)
  report_space (raised text) = do
    emit (progress (codes "cannot read the free space: " ++ text))
    pure none
  report_space (ok free) = pure (shortage_of free)

  unfoldable pub disk_shortage_message : Action W (Option Text)
  unfolding report_space shortage_of
  disk_shortage_message = do reading ← ask m.free_space; report_space reading

  -- What `load_task` makes of the import: a callable, None, or the exception passed on.
  unfoldable pub loaded : Text → Import → Answer (Option (Context → W → Answer TaskResult × W))
  loaded name (not_found missing text) =
      if missing == module_prefix ++ name then ok none else raised text
  loaded name (broken text) = raised text
  loaded name (imported false) = ok none
  loaded name (imported true) = ok (some (m.call_task name))

  unfoldable pub load_task : Text → Action W (Answer (Option (Context → W → Answer TaskResult × W)))
  unfolding loaded
  load_task name = do
    answer ← ask (m.import_module (module_prefix ++ name))
    pure (loaded name answer)

  abbrev pub cache_problem : Answer (Unit {0}) → Action W (Unit {0})
  cache_problem (ok _) = pure tt
  cache_problem (raised text) =
      emit (progress (codes "the package download cache was not freed: " ++ text))

  unfoldable pub free_download_cache : Context → Action W (Unit {0})
  free_download_cache ctx =
      if ctx.delete_packages_after_install
      then (do done ← ask m.apt_clean; cache_problem done)
      else pure tt

  -- The rest of one round of the loop, for what `load_task` answered.
  unfoldable pub run_loaded :
      Context → Text → Answer (Option (Context → W → Answer TaskResult × W)) → Action W TaskResult
  run_loaded ctx name (raised text) = do
    let result = warn_result (import_failed text)
    emit (result_line name result none true)
    free_download_cache ctx
    pure result
  run_loaded ctx name (ok none) = do
    let result = not_implemented name
    emit (result_line name result none true)
    free_download_cache ctx
    pure result
  run_loaded ctx name (ok (some task)) = do
    ask m.start_delay
    start ← ask m.monotonic
    answer ← ask (task (record ctx { task_name = name }))
    end ← ask m.monotonic
    let result = warn_result (answered answer)
    emit (result_line name result (some (end - start)) true)
    free_download_cache ctx
    pure result

  unfoldable pub run_task : Context → Text → Action W TaskResult
  unfolding ◌>>=◌
  run_task ctx name = do emit (task_start name); task ← load_task name; run_loaded ctx name task

  abbrev pub Outcome : Type 0
  Outcome = List (Text × TaskResult) × Option Text

  -- A shortage ends the loop before the task; otherwise the round goes on.
  unfoldable pub unless_short : Text → ℕ → ℕ → Option Text → Action W Outcome → Action W Outcome
  unfolding stop_reason
  unless_short name left total none go_on = go_on
  unless_short name left total (some shortage) go_on =
      pure ([], some (stop_reason name shortage left total))

  -- The loop of `run_tasks` from one index on: the results and the reason of a stop.
  unfoldable pub run_from : Context → ℕ → ℕ → List Text → Action W Outcome
  unfolding unless_short ◌>>=◌
  run_from ctx total index [] = pure ([], none)
  run_from ctx total index (name ∷ rest) = do
    shortage ← disk_shortage_message
    unless_short name (total - index) total shortage (do
      result ← run_task ctx name
      (results, stop) ← run_from ctx total (suc index) rest
      pure ((name, result) ∷ results, stop))

  unfoldable pub run_tasks : Context → List Text → Action W Outcome
  unfolding run_from
  run_tasks ctx names = run_from ctx (length names) 0 names

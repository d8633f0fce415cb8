-- ===== src/Metrics/Samples.antt =====
-- A small machine with two files of the queue, and the theorems at it.
use pyntara.Shared.{
  ℕ, suc, ◌≤◌, ◌+◌, ◌≡◌, ◌≢◌, refl, sym, ◌∙◌, ◌⊎◌, ◌↔◌, inl, inr, true, false, Option, none, some,
  [], ◌∷◌, ◌++◌, arith, nat_eq, list_eq, option_eq,
}
use mathlib.Core.Option.{some-injective}
use pyntara.Text.{Text, codes, strip, split, splitlines, join, starts_with, decimal, sorted}
use pyntara.Effects.{ok}
use pyntara.Metrics.Store.{
  root, spool, temp, main_outbox, google_script, main_sent, File, Store, find, remove, at, bind,
  unbind, put, same,
}
use pyntara.Metrics.Machine.{
  link_if_free, copy, change, Calls, State, exited, opened, pure, observe, ask, attempt, tell,
  ◌>>=◌, perform, mkdir, iterdir, link, unlink, replace, read_bytes, query,
}
use pyntara.Metrics.Command.{
  build_queue_name, restore_original_name, restore_original_name-build_queue_name,
  substituted_command, format_from, upload_command, b64encode,
}
use pyntara.Metrics.Dispatch.{
  unlink_all, link_all, concluded, dispatch_all, prepare_directories, dispatch_prepared,
  dispatch_to, dispatch_entries,
}
use pyntara.Metrics.Vault.{read_password, open_runtime_vault_with_reason, google_script_credentials}
use pyntara.Metrics.Entries.{
  insert_key, sort_keys, regular_names, keyed, ordered_entries, entry_uploadable, uploadable_among,
}
use pyntara.Metrics.Send.{
  ChannelOutcome, outcome, answer_excerpt, archive_entry, judged, invoke, upload, send_entry,
  send_all, send_one, send_with, send_entries, drain, drain_present, send_google_queue,
}
use pyntara.Metrics.Ingest.{
  leave_spool, publish_attempts, publish_copy, publish_entry, remove_rejected, ingest_entry,
  ingest_all, ensure_dirs, ingest_present, ingest_spool, exit_of_ingest,
}
use pyntara.Metrics.Ingested.{IsSafe, Stays}
use pyntara.Metrics.Times.{excess_bits, rounded, st_mtime, commit_time_ns}
use pyntara.Metrics.Ingested.Whole.{ingest_spool-Safe}
use pyntara.Metrics.Backoff.{backoff_delay, Grows, backoff_delay_bounds}
use pyntara.Metrics.Loop.{
  Loop, first_loop, pause_after, try_cycle, dispatch_and_send, report, cycle, cycles,
}
use pyntara.Metrics.Stages.{seen, view, ◌⟶*◌, IsHeld, IsPast, IsAgreed}
use pyntara.Metrics.Refined.Service.{cycles-refines, cycles-keep}
use pyntara.Metrics.Dispatched.Complete.{dispatch_entries-clear}
use pyntara.Metrics.Stuck.{cycles-stuck}
use pyntara.Metrics.Changes.{line_about, cycle-changes}
use pyntara.Metrics.Pause.{IsGood, pause_after_bounds}

program : Unit {0}
unfolding excess_bits rounded st_mtime commit_time_ns leave_spool publish_attempts publish_copy
    publish_entry remove_rejected ingest_entry ingest_all ensure_dirs ingest_present ingest_spool
    link_if_free copy change find remove at bind unbind put same pure observe ask attempt tell ◌>>=◌
    perform mkdir iterdir link unlink replace read_bytes query build_queue_name
    restore_original_name substituted_command format_from upload_command b64encode unlink_all
    link_all concluded dispatch_all prepare_directories dispatch_prepared dispatch_to read_password
    open_runtime_vault_with_reason google_script_credentials insert_key sort_keys answer_excerpt
    regular_names keyed ordered_entries entry_uploadable uploadable_among archive_entry judged
    invoke upload send_entry send_all send_one send_with send_entries drain drain_present
    send_google_queue backoff_delay pause_after try_cycle dispatch_and_send report cycle cycles
    strip split splitlines join starts_with decimal sorted nat_eq list_eq option_eq
program = tt

-- The machine counts its calls of curl and adds up its pauses.
record Counts : Type 0 where
  uploads : ℕ
  slept : ℕ

abbrev small_calls : Calls Counts
small_calls = record {
  refusal = λ call w. (none, w);
  missing_error = λ d name. codes "missing";
  exists_error = λ d name. codes "exists";
  is_dir = λ d w. true;
  run_command = λ command input w. (
    ok (record { returncode = exited 0; stdout = codes "OK stored"; stderr = [] }),
    record w { uploads = suc w.uploads },
  );
  choice = λ n w. (1, w);
  vault_is_file = λ w. true;
  vault_size = λ w. ok 9;
  read_password_file = λ w. ok (codes "word ");
  open_vault = λ password w.
      opened
        (λ title. some (record { url = some (codes "https://a"); password = some (codes "key") }));
  random_suffix = λ length w. (codes "abc", w);
  token_hex = λ bytes w. (codes "00", w);
  sleep = λ seconds w. record w { slept = seconds + w.slept };
}

abbrev report_file : File
report_file = record { content = 1 ∷ 2 ∷ []; mode = 384; mtime = 7; is_regular = true }

abbrev older_file : File
older_file = record { content = 3 ∷ []; mode = 384; mtime = 5; is_regular = true }

abbrev report_name : Text
report_name = codes "report.txt.abcdefghijkl"

abbrev older_name : Text
older_name = codes "older.txt.abcdefghijkl"

-- One file in the outbox and one in the channel.
abbrev small_store : Store
small_store main_outbox = (report_name, report_file) ∷ []
small_store google_script = (older_name, older_file) ∷ []
small_store root = []
small_store spool = []
small_store temp = []
small_store main_sent = []

abbrev small_state : State Counts
small_state = record {
  world = record { uploads = 0; slept = 0 };
  store = small_store;
  journal = [];
}

-- A state that a crash between the link and the unlink leaves.
abbrev crashed_store : Store
crashed_store main_outbox = (report_name, report_file) ∷ []
crashed_store google_script = (report_name, report_file) ∷ (older_name, older_file) ∷ []
crashed_store root = []
crashed_store spool = []
crashed_store temp = []
crashed_store main_sent = []

abbrev crashed_state : State Counts
crashed_state = record small_state { store = crashed_store }

one_cycle :
    view (cycle small_calls first_loop small_state).1.store report_name
    ≡ seen none none (some report_file)
unfolding program
one_cycle = refl

one_cycle_uploads : (cycle small_calls first_loop small_state).1.world.uploads ≡ 2
unfolding program
one_cycle_uploads = refl

stuck_twice : (cycles small_calls 2 first_loop crashed_state).1.world.slept ≡ 6
unfolding program
stuck_twice = refl

upload_command_small :
    upload_command report_name (codes "https://a") (codes "key")
    ≡ ok (
        codes "curl"
        ∷ codes "--location"
        ∷ codes "--max-time"
        ∷ codes "7777"
        ∷ codes "--silent"
        ∷ codes "--show-error"
        ∷ codes "--data-urlencode"
        ∷ codes "filename=report.txt"
        ∷ codes "--data-urlencode"
        ∷ codes "pass=key"
        ∷ codes "--data-urlencode"
        ∷ codes "data@-"
        ∷ codes "https://a"
        ∷ [])
unfolding program
upload_command_small = refl

b64encode_small : b64encode (codes "light work.") ≡ codes "bGlnaHQgd29yay4="
unfolding program
b64encode_small = refl

one_file : IsAgreed (seen (some report_file) none none)
one_file f g (inl e) (inl e') = some-injective f g (sym e ∙ e')
one_file f g (inl e) (inr (inl e')) = absurd (cc)
one_file f g (inl e) (inr (inr e')) = absurd (cc)
one_file f g (inr (inl e)) h = absurd (cc)
one_file f g (inr (inr e)) h = absurd (cc)

cycles-refines_example :
    (view small_store report_name
      ⟶* view (cycles small_calls 2 first_loop small_state).1.store report_name)
    × (at (cycles small_calls 2 first_loop small_state).1.store main_outbox report_name ≡ none)
    × ((f : File)
        → IsHeld f (view small_store report_name)
          ↔ IsPast f (view (cycles small_calls 2 first_loop small_state).1.store report_name))
unfolding program
cycles-refines_example =
    cycles-refines small_calls 1 first_loop small_state (dispatch_entries small_calls small_state).1
      report_name refl one_file

cycles-keep_example :
    IsHeld report_file (view small_store report_name)
    ↔ IsHeld report_file (view (cycles small_calls 1 first_loop small_state).1.store report_name)
unfolding program
cycles-keep_example =
    cycles-keep small_calls 1 first_loop small_state report_name report_file one_file

dispatch_entries-clear_example :
    ((at small_store main_outbox report_name ≡ none)
      × (view (dispatch_entries small_calls small_state).1.store report_name
          ≡ view small_store report_name))
    ⊎ ((f : File) × (t : Option File) × (view small_store report_name ≡ seen (some f) none t)
        × (view (dispatch_entries small_calls small_state).1.store report_name
            ≡ seen none (some f) t))
unfolding program
dispatch_entries-clear_example =
    dispatch_entries-clear small_calls report_name small_state
      (dispatch_entries small_calls small_state).1 refl

cycles-stuck_example :
    (view (cycles small_calls 2 first_loop crashed_state).1.store report_name
      ≡ view crashed_store report_name)
    × (at (cycles small_calls 2 first_loop crashed_state).1.store main_sent older_name
        ≡ at crashed_store main_sent older_name)
unfolding program
cycles-stuck_example =
    cycles-stuck small_calls 2 first_loop crashed_state report_name older_name report_file
      report_file none refl

cycle-changes_example :
    (o : ChannelOutcome) × (loop' : Loop) × ((dispatch_and_send small_calls false crashed_state).0
      ≡ ok o)
    × ((cycle small_calls first_loop crashed_state).0 ≡ ok loop')
    × (loop'.last_problem ≡ o.problem)
    × (loop'.failed_cycles ≡ (pause_after 0 o).0)
    × (((none ≡ o.problem)
          × ((cycle small_calls first_loop crashed_state).1.journal
              ≡ (dispatch_and_send small_calls false crashed_state).1.journal))
        ⊎ ((none ≢ o.problem)
            × ((cycle small_calls first_loop crashed_state).1.journal
                ≡ (dispatch_and_send small_calls false crashed_state).1.journal
                  ++ line_about o.problem ∷ [])))
cycle-changes_example = cycle-changes small_calls first_loop crashed_state

backoff_delay_bounds_example : Grows 2 2 300 8
backoff_delay_bounds_example =
    backoff_delay_bounds 2 2 300 (omega arith) (omega arith) (omega arith) 8

pause_after_bounds_example :
    (2 ≤ (pause_after 3 (outcome 4 0 none)).1)
    × ((pause_after 3 (outcome 4 0 none)).1 ≤ 14400)
    × (((outcome 4 0 none).problem ≡ none) ⊎ ((pause_after 3 (outcome 4 0 none)).1 ≤ 300))
    × ((IsGood (outcome 4 0 none) × ((pause_after 3 (outcome 4 0 none)).0 ≡ 0))
        ⊎ ((¬ IsGood (outcome 4 0 none)) × ((pause_after 3 (outcome 4 0 none)).0 ≡ 4)))
pause_after_bounds_example = pause_after_bounds 3 (outcome 4 0 none)

restore_original_name-build_queue_name_example :
    restore_original_name (build_queue_name (codes "report.txt") (codes "abcdefghijkl")) 12
    ≡ codes "report.txt"
restore_original_name-build_queue_name_example =
    restore_original_name-build_queue_name (codes "report.txt") (codes "abcdefghijkl")

-- A file and an empty one in the spool.
abbrev spool_store : Store
spool_store spool =
    (codes "a.txt", older_file) ∷ (codes "b", record older_file { content = [] }) ∷ []
spool_store main_outbox = (report_name, report_file) ∷ []
spool_store root = []
spool_store temp = []
spool_store google_script = []
spool_store main_sent = []

abbrev spool_state : State Counts
spool_state = record small_state { store = spool_store }

ingested :
    (ingest_spool small_calls spool_state).1.store main_outbox
    ≡ (codes "a.txt.abc", older_file) ∷ (report_name, report_file) ∷ []
unfolding program
ingested = refl

ingest_left : exit_of_ingest (ingest_spool small_calls spool_state).0 ≡ (0, none)
unfolding program
ingest_left = refl

ingest_spool-Safe_example :
    IsSafe (codes "a.txt") older_file (ingest_spool small_calls spool_state).1.store
    × Stays
        (at spool_store main_outbox report_name)
        (at (ingest_spool small_calls spool_state).1.store main_outbox report_name)
unfolding program
ingest_spool-Safe_example =
    ingest_spool-Safe small_calls spool_state (codes "a.txt") report_name older_file (λ w. refl)
      refl

-- A time of the year 2026 loses its last digits.
time_of_2026 : commit_time_ns (st_mtime 1785000000123456789) ≡ 1785000000123456768
unfolding program
time_of_2026 = refl

-- ===== src/Entry/Samples.antt =====
-- A run on a small host, the accounts of a small machine, and the theorems about them.
use mathlib.Core.List.{Perm, Sublist}
use pyntara.Shared.{
  ℕ, suc, ◌≡◌, refl, ◌↔◌, ◌⊎◌, true, false, Option, none, some, List, [], ◌∷◌, ◌++◌, All, Memᴰ,
  ◌==◌, nat_eq, list_eq, option_eq, if◌then◌else◌,
}
use pyntara.Text.{Text, codes, ascii_fold, strip, split, splitlines, before, after, contains_code}
use pyntara.Effects.{System, ok}
use pyntara.Models.{task_result}
use pyntara.Catalog.Data.{TaskSpec, modes}
use pyntara.Catalog.{resolve}
use pyntara.Runner.{Machine, imported}
use pyntara.Entry.Environment.{env}
use pyntara.Entry.Desktop.{
  Accounts, answered, candidates, get_desktop_username_and_home, seated_session_username,
}
use pyntara.Entry.Selection.{
  ProcessCheck, detect_default_mode, resolve_mode, force_all_keyword, default_vault_warning,
}
use pyntara.Entry.Tasks.{chosen, forced}
use pyntara.Entry.{Host, run}
use pyntara.Entry.Mode.{IsResolved, resolve_mode_outcome}
use pyntara.Entry.Exit.{IsClean, mode_step, outcome, run_exit}
use pyntara.Entry.Chosen.{IsAskedFor, chosen_without_dependencies, forced_names}
use pyntara.Entry.Account.{IsFirst, desktop_account}

abbrev small_environ : Text → Option Text
small_environ name =
    if name == codes "PYNTARA_INSTALL_MODE"
    then some (codes "Desktop")
    else if name == codes "PYNTARA_TASKS"
    then some (codes "zram")
    else none

-- No process that was asked for runs.
abbrev idle : ProcessCheck ℕ
idle name count = (some (ok 1), suc count)

abbrev small_machine : Machine ℕ
small_machine = record {
  free_space = λ count. (ok 99999999, suc count);
  import_module = λ name count. (imported true, suc count);
  call_task = λ name ctx count. (ok (task_result true), suc count);
  apt_clean = λ count. (ok tt, suc count);
  monotonic = λ count. (count, suc count);
  start_delay = λ count. (tt, suc count);
}

abbrev small_host : Host ℕ
small_host = record {
  environ = small_environ;
  process_check = idle;
  machine = small_machine;
  quiesce_package_updaters = λ count. (tt, suc count);
  version = codes "1.0";
  repo_root = codes "/repo";
  task_data_root = codes "/repo/task_data";
}

abbrev spec : Text → List Text → TaskSpec
spec name depends = record { name = name; description = []; depends = depends; modes = modes }

abbrev swap_task : TaskSpec
swap_task = spec (codes "swap") []

abbrev zram_task : TaskSpec
zram_task = spec (codes "zram") (codes "swap" ∷ [])

abbrev start : System ℕ
start = record { world = 0; log = [] }

abbrev zram_alone : List Text
zram_alone = codes "ZRAM" ∷ []

resolve_mode_outcome_example :
    Memᴰ (resolve_mode idle small_environ ascii_fold start).0.0 modes
    × IsResolved idle small_environ ascii_fold
        (env small_environ (codes "PYNTARA_INSTALL_MODE"))
        (detect_default_mode idle small_environ start).0
        (resolve_mode idle small_environ ascii_fold start).0
resolve_mode_outcome_example = resolve_mode_outcome idle small_environ ascii_fold start

run_exit_example :
    (((run ascii_fold small_host (swap_task ∷ zram_task ∷ []) start).0 ≡ 0)
      ⊎ ((run ascii_fold small_host (swap_task ∷ zram_task ∷ []) start).0 ≡ 1))
    × (((run ascii_fold small_host (swap_task ∷ zram_task ∷ []) start).0 ≡ 0) ↔ (
        ((mode_step ascii_fold small_host (swap_task ∷ zram_task ∷ []) start).0.1 ≡ none)
        × (default_vault_warning (env small_environ (codes "PYNTARA_VAULT_SOURCE")) ≡ none)
        × ((outcome ascii_fold small_host (swap_task ∷ zram_task ∷ []) start).1 ≡ none)
        × All
            (λ o. IsClean o.1)
            (outcome ascii_fold small_host (swap_task ∷ zram_task ∷ []) start).0))
run_exit_example = run_exit ascii_fold small_host swap_task (zram_task ∷ []) start

abbrev kept_alone : List Text
kept_alone = (chosen ascii_fold (swap_task ∷ zram_task ∷ []) zram_alone false).0

abbrev omitted_alone : List Text
omitted_alone = (chosen ascii_fold (swap_task ∷ zram_task ∷ []) zram_alone false).1

abbrev resolved_alone : List Text
resolved_alone = resolve ascii_fold zram_alone (swap_task ∷ zram_task ∷ [])

chosen_without_dependencies_example :
    (Sublist kept_alone resolved_alone × Sublist omitted_alone resolved_alone)
    × Perm (kept_alone ++ omitted_alone) resolved_alone
    × ((name : Text)
        → (Memᴰ name kept_alone
            ↔ (Memᴰ name resolved_alone × IsAskedFor ascii_fold zram_alone name))
          × (Memᴰ name omitted_alone
              ↔ (Memᴰ name resolved_alone × (¬ IsAskedFor ascii_fold zram_alone name))))
chosen_without_dependencies_example =
    chosen_without_dependencies ascii_fold (swap_task ∷ zram_task ∷ []) zram_alone

forced_names_example :
    (IsAskedFor ascii_fold zram_alone force_all_keyword
      × (forced ascii_fold zram_alone (codes "swap" ∷ codes "zram" ∷ [])
          ≡ codes "swap" ∷ codes "zram" ∷ []))
    ⊎ ((¬ IsAskedFor ascii_fold zram_alone force_all_keyword)
        × ((name : Text)
            → Memᴰ name (forced ascii_fold zram_alone (codes "swap" ∷ codes "zram" ∷ [])) ↔ (
                Memᴰ name (codes "swap" ∷ codes "zram" ∷ [])
                × IsAskedFor ascii_fold zram_alone name)))
forced_names_example = forced_names ascii_fold zram_alone (codes "swap" ∷ codes "zram" ∷ [])

-- A seated session, and no name in the environment.
abbrev small_accounts : Accounts
small_accounts = record {
  environ = λ name. none;
  getpwnam = λ name.
      if name == codes "ann"
      then some (record { pw_name = name; pw_uid = 1000; pw_dir = codes "/home/ann" })
      else none;
  getpwall = [];
  list_sessions = answered 0 (codes "2 1000 ann seat0");
  show_session =
      λ id. answered 0 (codes "Name=ann" ++ 10 ∷ codes "Seat=seat0" ++ 10 ∷ codes "Class=user");
}

ann : get_desktop_username_and_home small_accounts ≡ (codes "ann", codes "/home/ann")
unfolding get_desktop_username_and_home seated_session_username strip split splitlines before after
    contains_code nat_eq list_eq option_eq
ann = refl

desktop_account_example :
    IsFirst small_accounts
      (candidates small_accounts)
      (get_desktop_username_and_home small_accounts)
desktop_account_example = desktop_account small_accounts

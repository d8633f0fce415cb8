-- ===== src/Entry/Selection.antt =====
-- pyntara.py: the mode of a run, and the notice that a wrong value of the environment gets.
use pyntara.Shared.{
  ℕ, zero, suc, Bool, true, false, ◌||◌, Option, none, some, List, [], ◌∷◌, ◌++◌, ◌==◌, nat_eq,
  list_eq, if◌then◌else◌,
}
use pyntara.Text.{Text, codes, join}
use pyntara.Effects.{
  event_line, countdown, Answer, ok, raised, Action, pure, ask, emit, ◌>>=◌, ◌>>◌,
}
use pyntara.Catalog.Data.{modes}
use pyntara.Catalog.{canonical_mode_name}
use pyntara.Entry.Environment.{env}

-- NOTICE_TIMEOUT, FORCE_ALL_KEYWORD, DESKTOP_DETECT_PROCESSES and DEFAULT_VAULT_SOURCE_NAME of
-- values/engine.py
abbrev pub notice_timeout : Option ℕ
notice_timeout = some 7

abbrev pub force_all_keyword : Text
force_all_keyword = codes "all"

abbrev pub desktop_detect_processes : List Text
desktop_detect_processes =
    codes "kwin_wayland" ∷ codes "kwin_x11" ∷ codes "plasmashell" ∷ codes "gnome-shell" ∷ []

abbrev pub default_vault_source_name : Text
default_vault_source_name = codes "default"

-- The query of a process by its name: no such tool, an exception, or the exit status.
abbrev pub ProcessCheck : Type 0 → Type 0
ProcessCheck W = Text → W → Option (Answer ℕ) × W

abbrev seconds_of : Option ℕ → ℕ
seconds_of none = 0
seconds_of (some n) = n

-- No tool and a failed query mean "not running".
abbrev pub is_running : Option (Answer ℕ) → Bool
is_running none = false
is_running (some (raised text)) = false
is_running (some (ok returncode)) = returncode == 0

abbrev pub is_set : Option Text → Bool
is_set none = false
is_set (some _) = true

module _ {W : Type 0} where
  -- for remaining in range(left, 0, -1)
  unfoldable pub count_down : ℕ → Action W (Unit {0})
  count_down zero = pure tt
  count_down (suc left) = do emit (countdown (suc left)); count_down left

  unfoldable pub warn_and_continue : Text → Option ℕ → Action W (Unit {0})
  unfolding count_down ◌>>=◌
  warn_and_continue message timeout = do
    emit (event_line (codes "Error! " ++ message) true)
    count_down (seconds_of timeout)

abbrev unknown_mode_notice : Text → Text → Text
unknown_mode_notice written detected =
    codes "Install mode '"
    ++ (written
        ++ (codes
              "' was set through environment variables but names no declared mode, applied mode '"
            ++ (detected
                ++ (codes "'. The declared modes are: "
                    ++ (join (codes ", ") modes
                        ++ codes
                            ". If this does not suit you, interrupt the program and redefine the mode through environment variables. Execution continues in")))))

unfoldable pub mode_warning : Text → Text → Text
mode_warning written detected =
    codes "install mode '"
    ++ (written ++ (codes "' names no declared mode, the run applied '" ++ (detected ++ codes "'")))

module _ {W : Type 0} (check : ProcessCheck W) where
  unfoldable pub process_running : Text → Action W Bool
  unfolding ◌>>=◌
  process_running name = do answer ← ask (check name); pure (is_running answer)

  -- A process that runs ends the loop.
  unfoldable pub detect_process : List Text → Action W Text
  unfolding process_running ◌>>=◌
  detect_process [] = pure (codes "server")
  detect_process (name ∷ rest) = do
    running ← process_running name
    if running then pure (codes "desktop") else detect_process rest

  module _ (environ : Text → Option Text) where
    unfoldable pub detect_default_mode : Action W Text
    unfolding env detect_process
    detect_default_mode =
        if is_set (env environ (codes "XDG_CURRENT_DESKTOP"))
          || is_set (env environ (codes "DESKTOP_SESSION"))
        then pure (codes "desktop")
        else detect_process desktop_detect_processes

    -- The mode for a written name, given the declared mode that it means.
    unfoldable pub mode_of_written : Text → Option Text → Action W (Text × Option Text)
    unfolding mode_warning ◌>>=◌
    mode_of_written written (some mode) = if mode == written then pure (mode, none) else (do
      emit (
          event_line
            (codes "Install mode '" ++ (written ++ (codes "' applied as '" ++ (mode ++ codes "'"))))
            false)
      pure (mode, none))
    mode_of_written written none = do
      detected ← detect_default_mode
      warn_and_continue (unknown_mode_notice written detected) notice_timeout
      pure (detected, some (mode_warning written detected))

    unfoldable pub mode_of : (ℕ → Text) → Option Text → Action W (Text × Option Text)
    unfolding mode_of_written ◌>>=◌
    mode_of fold_code none = do
      detected ← detect_default_mode
      emit (event_line (codes "Install mode not set, using detected default: " ++ detected) false)
      pure (detected, none)
    mode_of fold_code (some written) =
        mode_of_written written (canonical_mode_name fold_code written)

    unfoldable pub resolve_mode : (ℕ → Text) → Action W (Text × Option Text)
    unfolding mode_of
    resolve_mode fold_code = mode_of fold_code (env environ (codes "PYNTARA_INSTALL_MODE"))

-- The warning of a run that takes its secrets from the default vault.
unfoldable pub default_vault_warning : Option Text → Option Text
default_vault_warning none = none
default_vault_warning (some vault_source) =
    if vault_source == default_vault_source_name
    then some (
        codes
          "the run takes its secrets from the default vault, so the runtime secrets of this machine are rebuilt from the repository test vault; set the production vault password for a configured machine")
    else none

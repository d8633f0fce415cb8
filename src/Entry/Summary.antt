-- ===== src/Entry/Summary.antt =====
-- pyntara.py: what `run` reports at the end, and the exit code it ends with.
use pyntara.Shared.{
  ℕ, ◌-◌, Bool, true, false, not, ◌&&◌, Option, none, some, List, [], ◌∷◌, ◌++◌, length,
  if◌then◌else◌,
}
use pyntara.Text.{Text, codes, join, decimal}
use pyntara.Models.{TaskResult}
use pyntara.Effects.{result_line, event_line, Action, pure, emit, ◌>>=◌, ◌>>◌}

abbrev pub Results : Type 0
Results = List (Text × TaskResult)

abbrev pub is_empty {ℓ} : {A : Type ℓ} → List A → Bool
is_empty [] = true
is_empty (_ ∷ _) = false

-- [name for name, result in results if test(result)]
abbrev pub names_where : (TaskResult → Bool) → Results → List Text
names_where test [] = []
names_where test ((name, r) ∷ rest) =
    if test r then name ∷ names_where test rest else names_where test rest

abbrev pub is_failed : TaskResult → Bool
is_failed r = not r.success && not r.skipped

abbrev pub is_warned : TaskResult → Bool
is_warned r = r.success && (not r.skipped && not (is_empty r.warnings))

abbrev pub is_skipped : TaskResult → Bool
is_skipped r = r.skipped

-- [warning for warning in (…) if warning]
abbrev pub warnings_among : List (Option Text) → List Text
warnings_among [] = []
warnings_among (none ∷ rest) = warnings_among rest
warnings_among (some [] ∷ rest) = warnings_among rest
warnings_among (some (c ∷ s) ∷ rest) = (c ∷ s) ∷ warnings_among rest

-- The exit code: the three `raise typer.Exit(1)` below the run, or the end of the function.
unfoldable pub exit_of : (failed warned run_warnings : List Text) → ℕ
exit_of failed warned run_warnings =
    if not (is_empty failed)
    then 1
    else if not (is_empty warned)
    then 1
    else if not (is_empty run_warnings)
    then 1
    else 0

unfoldable pub exit_code : Results → List Text → ℕ
unfolding exit_of
exit_code results run_warnings =
    exit_of (names_where is_failed results) (names_where is_warned results) run_warnings

abbrev failed_line : ℕ → List Text → Text
failed_line total failed =
    codes "Failed "
    ++ (decimal (length failed)
        ++ (codes " of " ++ (decimal total ++ (codes " tasks: " ++ join (codes " ") failed))))

abbrev warned_line : ℕ → ℕ → List Text → Text
warned_line finished total warned =
    codes "Finished "
    ++ (decimal finished
        ++ (codes " of "
            ++ (decimal total
                ++ (codes " tasks, "
                    ++ (decimal (length warned)
                        ++ (codes " with warnings: " ++ join (codes " ") warned))))))

abbrev skipped_line : ℕ → ℕ → ℕ → Text
skipped_line finished total skipped =
    codes "Finished "
    ++ (decimal finished
        ++ (codes " of " ++ (decimal total ++ (codes " tasks, skipped " ++ decimal skipped))))

-- The last line of a run.
unfoldable pub closing_line : Results → Text
closing_line results =
    let total = length results in
    let failed = names_where is_failed results in
    let warned = names_where is_warned results in
    let skipped = length (names_where is_skipped results) in
    if not (is_empty failed)
    then failed_line total failed
    else if not (is_empty warned)
    then warned_line (total - skipped) total warned
    else if not (is_empty (names_where is_skipped results))
    then skipped_line (total - skipped) total skipped
    else codes "All " ++ (decimal total ++ codes " tasks finished")

module _ {W : Type 0} where
  unfoldable pub log_results : Results → Action W (Unit {0})
  unfolding ◌>>=◌
  log_results [] = pure tt
  log_results ((name, r) ∷ rest) = do emit (result_line name r none false); log_results rest

  unfoldable pub log_warnings : List Text → Action W (Unit {0})
  unfolding ◌>>=◌
  log_warnings [] = pure tt
  log_warnings (warning ∷ rest) = do
    emit (event_line (codes "[warn] run: " ++ warning) true)
    log_warnings rest

  unfoldable pub summarize : Results → List Text → Action W ℕ
  unfolding log_results log_warnings exit_code closing_line ◌>>=◌
  summarize results run_warnings = do
    log_results results
    log_warnings run_warnings
    emit (event_line (closing_line results) false)
    pure (exit_code results run_warnings)

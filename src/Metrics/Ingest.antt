-- ===== src/Metrics/Ingest.antt =====
-- metrics_commit.py: the ingest moves the files of the spool into main_outbox, under their names
-- with a random suffix.
use pyntara.Shared.{
  ℕ, zero, suc, ◌+◌, Bool, true, false, not, Option, none, some, List, [], ◌∷◌, ◌++◌, length, ltb,
  ◌==◌, nat_eq, if◌then◌else◌,
}
use pyntara.Text.{Text, codes, decimal, starts_with, sorted}
use pyntara.Effects.{Answer, ok, raised}
use pyntara.Metrics.Store.{Directory, root, spool, temp, main_outbox, File}
use pyntara.Metrics.Machine.{
  Calls, Action, pure, observe, ask, attempt, tell, ◌>>=◌, ◌>>◌, mkdir, iterdir, link_if_free, copy,
  change, unlink, query,
}
use pyntara.Metrics.Dispatch.{path_in, path_of}
use pyntara.Metrics.Command.{build_queue_name, queue_file_suffix_length}
use pyntara.Metrics.Times.{st_mtime, commit_time_ns}
use pyntara.Metrics.Entries.{max_queue_file_size_bytes, error_priority}

abbrev pub spool_temp_prefix : Text
spool_temp_prefix = codes ".commit-"

abbrev pub temp_name_random_bytes : ℕ
temp_name_random_bytes = 8

abbrev pub queue_link_attempts : ℕ
queue_link_attempts = 5

abbrev pub queue_file_mode : ℕ
queue_file_mode = 384

-- _reject_reason, of what stat answers.
abbrev pub reject_reason : Answer File → Option Text
reject_reason (raised text) = some (codes "cannot stat: " ++ text)
reject_reason (ok f) =
    if not f.is_regular
    then some (codes "not a regular file")
    else if length f.content == 0
    then some (codes "empty")
    else if ltb max_queue_file_size_bytes (length f.content)
    then some (
        decimal (length f.content)
        ++ (codes " bytes, larger than the limit of "
            ++ (decimal max_queue_file_size_bytes ++ codes " bytes")))
    else none

abbrev pub spool_line : Text → Text → Text
spool_line name said =
    codes "ingesting spool entry " ++ (path_in spool name ++ (codes ": " ++ said))

-- The exit of metrics_ingest.main, with its line on stderr.
abbrev pub exit_of_ingest : Answer ℕ → ℕ × Option Text
exit_of_ingest (raised text) = (1, some (codes "error: the ingest failed: " ++ text))
exit_of_ingest (ok zero) = (0, none)
exit_of_ingest (ok (suc left)) = (
  1,
  some (
      codes "error: the ingest left "
      ++ (decimal (suc left) ++ codes " spool entries unpublished")),
)

module _ {W : Type 0} (calls : Calls W) where
  -- The entry is in the outbox: it leaves temp and the spool.
  unfoldable pub leave_spool : (name queue_name temp_name : Text) → Action W Bool
  leave_spool name queue_name temp_name = do
    _ ← unlink calls temp temp_name
    _ ← unlink calls spool name
    _ ←
        tell
          (codes "ingested spool entry "
            ++ (path_in spool name ++ (codes " into " ++ path_in main_outbox queue_name)))
          none
    pure true

  -- The loop over the attempts that are left.
  unfoldable pub publish_attempts : (name temp_name : Text) → (attempts : ℕ) → Action W Bool
  publish_attempts name temp_name zero =
      tell
        (spool_line name (
          codes "cannot allocate a unique queue name after "
          ++ (decimal queue_link_attempts ++ codes " attempts, leaving it")))
        error_priority
      >> pure false
  publish_attempts name temp_name (suc attempts) = do
    suffix ← ask (calls.random_suffix queue_file_suffix_length)
    let queue_name = build_queue_name name suffix
    let again = publish_attempts name temp_name attempts
    linked ← link_if_free calls temp temp_name main_outbox queue_name
    if linked then leave_spool name queue_name temp_name else again

  -- The copy in temp, and its publication.
  unfoldable pub publish_copy : (name temp_name : Text) → Action W Bool
  publish_copy name temp_name = do
    f ← query calls spool name
    _ ← copy calls spool name temp temp_name
    _ ← change calls temp temp_name (λ file. record file { mode = queue_file_mode })
    _ ←
        change calls temp temp_name
          (λ file. record file { mtime = commit_time_ns (st_mtime f.mtime) })
    publish_attempts name temp_name queue_link_attempts

  abbrev pub failed_publication : Text → Answer Bool → Action W Bool
  failed_publication name (ok published) = pure published
  failed_publication name (raised text) =
      tell (spool_line name (codes "failed: " ++ (text ++ codes ", leaving it"))) error_priority
      >> pure false

  -- _publish_entry; an error of the last unlink is not caught.
  unfoldable pub publish_entry : Text → Action W Bool
  publish_entry name = do
    token ← ask (calls.token_hex temp_name_random_bytes)
    let temp_name = codes ".ingest-" ++ token
    answer ← attempt (publish_copy name temp_name)
    published ← failed_publication name answer
    _ ← unlink calls temp temp_name
    pure published

  -- The removal of a rejected entry: the number that is left behind.
  unfoldable pub remove_rejected : Text → Action W ℕ
  remove_rejected name = do
    answer ← attempt (unlink calls spool name)
    elim answer [
      | ok _ ↦ pure 0
      | raised text ↦
          tell (spool_line name (codes "cannot remove it: " ++ text)) error_priority >> pure 1
    ]

  unfoldable pub ingest_entry : Text → Option Text → Action W ℕ
  ingest_entry name (some reason) =
      tell (spool_line name (reason ++ codes ", removing")) error_priority >> remove_rejected name
  ingest_entry name none = do published ← publish_entry name; pure (if published then 0 else 1)

  -- The loop over the spool: the number of entries left behind.
  unfoldable pub ingest_all : (left_behind : ℕ) → List Text → Action W ℕ
  ingest_all left_behind [] = pure left_behind
  ingest_all left_behind (name ∷ entries) =
      let rest = λ (left : ℕ). ingest_all left entries in
      if starts_with spool_temp_prefix name then rest left_behind else (do
        answer ← attempt (query calls spool name)
        left ← ingest_entry name (reject_reason answer)
        rest (left_behind + left))

  unfoldable pub ensure_dirs : List Directory → Action W (Unit {0})
  ensure_dirs [] = pure tt
  ensure_dirs (d ∷ directories) = mkdir calls d >> ensure_dirs directories

  unfoldable pub ingest_present : (is_there : Bool) → Action W ℕ
  ingest_present false =
      tell
        (codes "ingesting spool " ++ (path_of spool ++ codes ": directory missing, nothing to do"))
        none
      >> pure 0
  ingest_present true = do found ← iterdir calls spool; ingest_all 0 (sorted found)

  unfoldable pub ingest_spool : Action W ℕ
  ingest_spool =
      ensure_dirs (root ∷ main_outbox ∷ temp ∷ [])
      >> observe (calls.is_dir spool)
      >>= ingest_present

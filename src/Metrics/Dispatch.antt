-- ===== src/Metrics/Dispatch.antt =====
-- dispatch_entries of metrics_send.py: every entry of main_outbox is linked into every channel, and
-- leaves main_outbox when all its links are there.
use pyntara.Shared.{Option, none, some, List, [], ◌∷◌, ◌++◌}
use pyntara.Text.{Text, codes, sorted}
use pyntara.Effects.{ok, raised}
use pyntara.Metrics.Store.{Directory, root, spool, temp, main_outbox, google_script, main_sent}
use pyntara.Metrics.Machine.{
  Calls, Action, pure, attempt, tell, ◌>>=◌, ◌>>◌, mkdir, iterdir, link, unlink,
}

-- Where the directories stand: values/system_metrics_setup.py
abbrev pub path_of : Directory → Text
path_of root = codes "/var/lib/pyntara/metrics"
path_of spool = codes "/var/spool/system_metrics"
path_of temp = codes "/var/lib/pyntara/metrics/temp"
path_of main_outbox = codes "/var/lib/pyntara/metrics/main_outbox"
path_of google_script = codes "/var/lib/pyntara/metrics/google_script"
path_of main_sent = codes "/var/lib/pyntara/metrics/main_sent"

abbrev pub path_in : Directory → Text → Text
path_in d name = path_of d ++ 47 ∷ name

abbrev pub channels : List Directory
channels = google_script ∷ []

-- `if problem is None: problem = ...`
abbrev pub first_problem : Option Text → Text → Option Text
first_problem none text = some text
first_problem (some problem) text = some problem

abbrev pub joined_problem : Option Text → Option Text → Option Text
joined_problem problem none = problem
joined_problem problem (some text) = first_problem problem text

module _ {W : Type 0} (calls : Calls W) where
  -- for created in linked: created.unlink(missing_ok=True)
  unfoldable pub unlink_all : Text → List Directory → Action W (Unit {0})
  unlink_all name [] = pure tt
  unlink_all name (channel ∷ linked) = unlink calls channel name >> unlink_all name linked

  abbrev dispatch_failure : Directory → Text → Text → Text
  dispatch_failure channel name text =
      codes "dispatching "
      ++ (name
          ++ (codes " into "
              ++ (path_of channel ++ (codes ": failed: " ++ (text ++ codes ", keeping it")))))

  -- The loop over the channels; `linked` holds those that are done. Answers none when every link is
  -- there, or the failure after the links are gone again.
  unfoldable pub link_all : Text → (linked channels : List Directory) → Action W (Option Text)
  link_all name linked [] = pure none
  link_all name linked (channel ∷ channels) = do
    answer ← attempt (link calls main_outbox name channel name)
    elim answer [
      | ok _ ↦ link_all name (linked ++ channel ∷ []) channels
      | raised text ↦ unlink_all name linked >> pure (some (dispatch_failure channel name text))
    ]

  -- The end of the loop over the channels: its `else`, when no link failed.
  unfoldable pub concluded : Text → Option Text → Action W (Unit {0})
  concluded name none =
      unlink calls main_outbox name
      >> tell (codes "dispatched " ++ (name ++ codes " into the channel queues")) none
  concluded name (some text) = pure tt

  -- The loop over the entries.
  unfoldable pub dispatch_all :
      (queues : List Directory) → (problem : Option Text) → List Text → Action W (Option Text)
  dispatch_all queues problem [] = pure problem
  dispatch_all queues problem (name ∷ entries) = do
    failure ← link_all name [] queues
    _ ← concluded name failure
    dispatch_all queues (joined_problem problem failure) entries

  -- The loop that prepares the directories: the failure of the first that cannot be made.
  unfoldable pub prepare_directories : List Directory → Action W (Option Text)
  prepare_directories [] = pure none
  prepare_directories (d ∷ directories) = do
    answer ← attempt (mkdir calls d)
    elim answer [
      | ok _ ↦ prepare_directories directories
      | raised text ↦ pure (
          some (
            codes "cannot prepare the System Metrics directory "
            ++ (path_of d ++ (codes ": " ++ text))))
    ]

  unfoldable pub dispatch_prepared :
      (queues : List Directory) → Option Text → Action W (Option Text)
  dispatch_prepared queues (some problem) = pure (some problem)
  dispatch_prepared queues none = do
    answer ← attempt (iterdir calls main_outbox)
    elim answer [
      | ok entries ↦ dispatch_all queues none (sorted entries)
      | raised text ↦ pure (
          some (
            codes "cannot list the System Metrics outbox "
            ++ (path_of main_outbox ++ (codes ": " ++ text))))
    ]

  unfoldable pub dispatch_to : (queues : List Directory) → Action W (Option Text)
  dispatch_to queues =
      prepare_directories (main_outbox ∷ main_sent ∷ queues) >>= dispatch_prepared queues

  abbrev pub dispatch_entries : Action W (Option Text)
  dispatch_entries = dispatch_to channels

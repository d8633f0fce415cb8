-- ===== src/Metrics/Refined/Sending.antt =====
-- send_google_queue moves the files along the steps of Stages.
use pyntara.Shared.{ℕ, Bool, true, false, Option, none, some, List, [], ◌∷◌, if◌then◌else◌, not}
use pyntara.Text.{Text, starts_with, strip}
use pyntara.Effects.{Answer, ok, raised}
use pyntara.Metrics.Store.{Directory, google_script, main_sent}
use pyntara.Metrics.Machine.{Completed, Calls, Action, pure, tell, ◌>>=◌}
use pyntara.Metrics.Vault.{Reasoned, got, absent}
use pyntara.Metrics.Entries.{
  regular_names, keyed, ordered_entries, reported, entry_uploadable, uploadable_among, send_order,
}
use pyntara.Metrics.Send.{
  archive_entry, is_success, judged, invoke, upload, send_entry, send_all, send_one, send_with,
  send_entries, drain, drain_present, send_google_queue, google_script_answer_ok_prefix,
}
use pyntara.Metrics.Refined.{
  Reaches, Anywhere, Preserves, pure-Preserves, observe-Preserves, ask-Preserves, tell-Preserves,
  bind-Preserves, try-Preserves,
}
use pyntara.Metrics.Refined.Primitive.{
  mkdir-Preserves, iterdir-Preserves, replace-Preserves, read_bytes-Preserves, query-Preserves,
}
use pyntara.Metrics.Rule.{Holds}
use pyntara.Metrics.Stages.{here}

module _ {W A : Type 0} where
  pub if-Preserves :
      (b : Bool) (m n : Action W A) → Preserves m → Preserves n → Preserves (if b then m else n)
  if-Preserves true m n h k = h
  if-Preserves false m n h k = k

  from-Preserves : (answer : Answer A) → Preserves {W = W} (λ s. (answer, s))
  unfolding Holds
  from-Preserves (ok a) s = (λ name. here, tt)
  from-Preserves (raised text) s = λ name. here

  invoke-Preserves : (calls : Calls W) (f : W → Answer A × W) → Preserves (invoke calls f)
  unfolding invoke Holds
  invoke-Preserves calls f s = go (f s.world)
    where
      go : (r : Answer A × W) → Reaches Anywhere s (r.0, record s { world = r.1 })
      go (ok a, w) = (λ name. here, tt)
      go (raised text, w) = λ name. here

told :
    {W A : Type 0} (text : Text) (priority : Option ℕ) (a : A)
    → Preserves {W = W} (tell text priority >>= (λ _. pure a))
told text priority a = bind-Preserves _ _ (tell-Preserves text priority) (λ _. pure-Preserves a)

module _ {W : Type 0} (calls : Calls W) where
  keyed-Preserves : (d : Directory) (found : List Text) → Preserves (keyed calls d found)
  unfolding keyed
  keyed-Preserves d [] = pure-Preserves _
  keyed-Preserves d (name ∷ found) =
      bind-Preserves _ _ (query-Preserves calls d name)
        (λ f. bind-Preserves _ _ (keyed-Preserves d found) (λ keys. pure-Preserves _))

  regular_names-Preserves :
      (d : Directory) (found : List Text) → Preserves (regular_names calls d found)
  unfolding regular_names Holds
  regular_names-Preserves d found s = (λ name. here, tt)

  ordered_entries-Preserves :
      (d : Directory) (order : Text) → Preserves (ordered_entries calls d order)
  unfolding ordered_entries
  ordered_entries-Preserves d order = bind-Preserves _ _ (iterdir-Preserves calls d) (λ found.
      bind-Preserves _ _ (regular_names-Preserves d found)
        (λ regular. bind-Preserves _ _ (keyed-Preserves d regular) (λ keys. pure-Preserves _)))

  reported-Preserves : (reason : Option Text) → Preserves (reported calls reason)
  reported-Preserves none = pure-Preserves true
  reported-Preserves (some reason) = told _ _ false

  entry_uploadable-Preserves : (name : Text) → Preserves (entry_uploadable calls name)
  unfolding entry_uploadable
  entry_uploadable-Preserves name =
      try-Preserves _ _ (query-Preserves calls google_script name) (λ f. reported-Preserves _)
        (λ text. told _ _ false)

  uploadable_among-Preserves : (found : List Text) → Preserves (uploadable_among calls found)
  unfolding uploadable_among
  uploadable_among-Preserves [] = pure-Preserves _
  uploadable_among-Preserves (name ∷ found) =
      bind-Preserves _ _ (entry_uploadable-Preserves name) (λ uploadable.
        bind-Preserves _ _ (uploadable_among-Preserves found) (λ entries. pure-Preserves _))

  archive_entry-Preserves : (name : Text) → Preserves (archive_entry calls name)
  unfolding archive_entry
  archive_entry-Preserves name =
      try-Preserves _ _ (replace-Preserves calls name) (λ _. told _ _ true) (λ text. told _ _ false)

  judged-Preserves : (name : Text) (result : Completed) → Preserves (judged calls name result)
  unfolding judged
  judged-Preserves name result =
      if-Preserves (not (is_success result.returncode)) _ _ (told _ _ false) (
        if-Preserves (not (starts_with google_script_answer_ok_prefix (strip result.stdout))) _ _
          (told _ _ false) (archive_entry-Preserves name))

  upload-Preserves :
      (name url key : Text) (content : List ℕ) → Preserves (upload calls name url key content)
  unfolding upload
  upload-Preserves name url key content = bind-Preserves _ _ (from-Preserves _) (λ command.
      try-Preserves _ _ (invoke-Preserves calls _) (judged-Preserves name) (λ text. told _ _ false))

  send_entry-Preserves : (name url key : Text) → Preserves (send_entry calls name url key)
  unfolding send_entry
  send_entry-Preserves name url key =
      try-Preserves _ _ (read_bytes-Preserves calls google_script name)
        (upload-Preserves name url key) (λ text. told _ _ false)

  send_all-Preserves :
      (url key : Text) (attempts sent : ℕ) (entries : List Text)
      → Preserves (send_all calls url key attempts sent entries)
  unfolding send_all
  send_all-Preserves url key attempts sent [] = pure-Preserves _
  send_all-Preserves url key attempts sent (name ∷ entries) =
      bind-Preserves _ _ (send_entry-Preserves name url key)
        (λ moved. send_all-Preserves url key _ _ entries)

  send_one-Preserves :
      (url key first : Text) (entries : List Text)
      → Preserves (send_one calls url key first entries)
  unfolding send_one
  send_one-Preserves url key first entries =
      bind-Preserves _ _ (ask-Preserves _)
        (λ n. bind-Preserves _ _ (send_entry-Preserves _ url key) (λ moved. pure-Preserves _))

  send_with-Preserves :
      (single_random : Bool) (first : Text) (entries : List Text)
      (credentials : Reasoned (Text × Text))
      → Preserves (send_with calls single_random first entries credentials)
  unfolding send_with
  send_with-Preserves single_random first entries (absent reason) = pure-Preserves _
  send_with-Preserves single_random first entries (got (url, key)) =
      if-Preserves single_random _ _ (send_one-Preserves url key first entries)
        (send_all-Preserves url key 0 0 (first ∷ entries))

  send_entries-Preserves :
      (single_random : Bool) (entries : List Text)
      → Preserves (send_entries calls single_random entries)
  unfolding send_entries
  send_entries-Preserves single_random [] = pure-Preserves _
  send_entries-Preserves single_random (first ∷ entries) =
      bind-Preserves _ _ (observe-Preserves _) (send_with-Preserves single_random first entries)

  drain-Preserves : (single_random : Bool) → Preserves (drain calls single_random)
  unfolding drain
  drain-Preserves single_random =
      try-Preserves _ _ (ordered_entries-Preserves google_script send_order)
        (λ ordered.
          bind-Preserves _ _ (uploadable_among-Preserves ordered)
            (send_entries-Preserves single_random))
        (λ text. pure-Preserves _)

  drain_present-Preserves :
      (single_random is_there : Bool) → Preserves (drain_present calls single_random is_there)
  unfolding drain_present
  drain_present-Preserves single_random false = pure-Preserves _
  drain_present-Preserves single_random true = drain-Preserves single_random

  pub send_google_queue-Preserves :
      (single_random : Bool) → Preserves (send_google_queue calls single_random)
  unfolding send_google_queue
  send_google_queue-Preserves single_random =
      try-Preserves _ _ (mkdir-Preserves calls main_sent)
        (λ _. bind-Preserves _ _ (observe-Preserves _) (drain_present-Preserves single_random))
        (λ text. pure-Preserves _)

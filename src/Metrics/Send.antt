-- ===== src/Metrics/Send.antt =====
-- send_google_queue of metrics_send.py: the entries of the channel in order, those that may be
-- uploaded, and the upload of each, which moves it into main_sent.
use pyntara.Shared.{
  ℕ, zero, suc, ◌%◌, Bool, true, false, not, Option, none, some, List, [], ◌∷◌, ◌++◌, length, take,
  ◌==◌, nat_eq, list_eq, if◌then◌else◌,
}
use pyntara.Text.{Text, codes, strip, split, splitlines, join, starts_with, decimal, is_nonempty}
use pyntara.Effects.{Answer, ok, raised}
use pyntara.Metrics.Store.{main_sent, google_script}
use pyntara.Metrics.Machine.{
  ReturnCode, exited, signalled, Completed, Calls, Action, pure, from, observe, ask, attempt, tell,
  ◌>>=◌, ◌>>◌, mkdir, replace, read_bytes,
}
use pyntara.Metrics.Command.{b64encode, upload_command}
use pyntara.Metrics.Dispatch.{path_of, path_in}
use pyntara.Metrics.Entries.{
  send_order, error_priority, channel_line, ordered_entries, uploadable_among,
}
use pyntara.Metrics.Vault.{Reasoned, got, absent, google_script_credentials}

pub record ChannelOutcome : Type 0 where
  pub attempts : ℕ
  pub sent : ℕ
  pub problem : Option Text

abbrev pub outcome : ℕ → ℕ → Option Text → ChannelOutcome
outcome attempts sent problem = record { attempts = attempts; sent = sent; problem = problem }

abbrev pub google_script_answer_ok_prefix : Text
google_script_answer_ok_prefix = codes "OK "

abbrev pub google_script_answer_excerpt_chars : ℕ
google_script_answer_excerpt_chars = 200

-- The first line that is not blank, as one line of at most so many characters.
unfoldable pub answer_excerpt : (lines : List Text) → (limit : ℕ) → Text
answer_excerpt [] limit = []
answer_excerpt (line ∷ lines) limit =
    let rest = answer_excerpt lines limit in
    let collapsed = join (codes " ") (split line) in
    if is_nonempty collapsed then take limit collapsed else rest

abbrev code_text : ReturnCode → Text
code_text (exited n) = decimal n
code_text (signalled n) = b'-' ∷ decimal n

abbrev pub is_success : ReturnCode → Bool
is_success (exited n) = n == 0
is_success (signalled n) = false

module _ {W : Type 0} (calls : Calls W) where
  abbrev pub sending_failed : Text → Text → Action W Bool
  sending_failed name said =
      tell (channel_line (codes "sending " ++ (name ++ (codes " failed: " ++ said)))) error_priority
      >> pure false

  unfoldable pub archive_entry : Text → Action W Bool
  archive_entry name = do
    answer ← attempt (replace calls google_script name main_sent name)
    elim answer [
      | raised text ↦
          tell
            (channel_line (
              codes "sent "
              ++ (name
                  ++ (codes " but cannot move it to "
                      ++ (path_in main_sent name ++ (codes ": " ++ text))))))
            error_priority
          >> pure false
      | ok _ ↦ tell (channel_line (codes "sent " ++ name)) none >> pure true
    ]

  -- What the web app answered.
  unfoldable pub judged : Text → Completed → Action W Bool
  judged name result =
      if not (is_success result.returncode)
      then sending_failed name (
          codes "curl exited "
          ++ (code_text result.returncode ++ (codes ": " ++ strip result.stderr)))
      else if not (starts_with google_script_answer_ok_prefix (strip result.stdout))
      then sending_failed name (
          codes "the web app answered "
          ++ (decimal (length (strip result.stdout))
              ++ (codes " characters without the 'OK ' prefix: "
                  ++ answer_excerpt (splitlines (strip result.stdout))
                      google_script_answer_excerpt_chars)))
      else archive_entry name

  -- A call that may raise.
  unfoldable pub invoke : {A : Type 0} → (W → Answer A × W) → Action W A
  invoke f s = let (answer, w) = f s.world in (answer, record s { world = w })

  unfoldable pub upload : Text → (url key : Text) → List ℕ → Action W Bool
  upload name url key content = do
    command ← from (upload_command name url key)
    answer ← attempt (invoke (calls.run_command command (b64encode content)))
    elim answer [ raised text ↦ sending_failed name text | ok result ↦ judged name result ]

  unfoldable pub send_entry : Text → (url key : Text) → Action W Bool
  send_entry name url key = do
    answer ← attempt (read_bytes calls google_script name)
    elim answer [
      | raised text ↦
          tell
            (channel_line
              (codes "cannot read " ++ (path_in google_script name ++ (codes ": " ++ text))))
            error_priority
          >> pure false
      | ok content ↦ upload name url key content
    ]

  -- The loop over the entries, with its two counts.
  unfoldable pub send_all :
      (url key : Text) → (attempts sent : ℕ) → List Text → Action W ChannelOutcome
  send_all url key attempts sent [] = pure (outcome attempts sent none)
  send_all url key attempts sent (name ∷ entries) = do
    moved ← send_entry name url key
    send_all url key (suc attempts) (if moved then suc sent else sent) entries

  abbrev pub nth : ℕ → (first : Text) → List Text → Text
  nth zero first entries = first
  nth (suc n) first [] = first
  nth (suc n) first (second ∷ entries) = nth n second entries

  unfoldable pub send_one : (url key : Text) → (first : Text) → List Text → Action W ChannelOutcome
  send_one url key first entries = do
    n ← ask (calls.choice (suc (length entries)))
    moved ← send_entry (nth (n % suc (length entries)) first entries) url key
    pure (outcome 1 (if moved then 1 else 0) none)

  unfoldable pub send_with :
      (single_random : Bool)
      → (first : Text) → List Text
      → Reasoned (Text × Text)
      → Action W ChannelOutcome
  send_with single_random first entries (absent reason) = pure (outcome 0 0 (some reason))
  send_with single_random first entries (got (url, key)) =
      if single_random
      then send_one url key first entries
      else send_all url key 0 0 (first ∷ entries)

  unfoldable pub send_entries : (single_random : Bool) → List Text → Action W ChannelOutcome
  send_entries single_random [] = pure (outcome 0 0 none)
  send_entries single_random (first ∷ entries) =
      observe (google_script_credentials calls) >>= send_with single_random first entries

  unfoldable pub drain : (single_random : Bool) → Action W ChannelOutcome
  drain single_random = do
    answer ← attempt (ordered_entries calls google_script send_order)
    elim answer [
      | raised text ↦ pure (
          outcome 0 0 (
            some (
              channel_line
                (codes "cannot list " ++ (path_of google_script ++ (codes ": " ++ text))))))
      | ok ordered ↦ uploadable_among calls ordered >>= send_entries single_random
    ]

  unfoldable pub drain_present : (single_random is_there : Bool) → Action W ChannelOutcome
  drain_present single_random false = pure (
      outcome 0 0
        (some (channel_line (codes "queue " ++ (path_of google_script ++ codes " missing")))))
  drain_present single_random true = drain single_random

  unfoldable pub send_google_queue : (single_random : Bool) → Action W ChannelOutcome
  send_google_queue single_random = do
    answer ← attempt (mkdir calls main_sent)
    elim answer [
      | raised text ↦ pure (
          outcome 0 0 (
            some (
              channel_line
                (codes "cannot prepare " ++ (path_of main_sent ++ (codes ": " ++ text))))))
      | ok _ ↦ observe (calls.is_dir google_script) >>= drain_present single_random
    ]

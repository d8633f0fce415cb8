-- ===== src/Metrics/Entries.antt =====
-- The entries of the channel in their order, and those that may be uploaded: _ordered_entries and
-- _entry_uploadable of metrics_send.py.
use pyntara.Shared.{
  ℕ, Bool, true, false, ◌&&◌, ◌||◌, not, Option, none, some, List, [], ◌∷◌, ◌++◌, length, ltb,
  filter, ◌==◌, nat_eq, list_eq, if◌then◌else◌,
}
use mathlib.Core.List.{reverse}
use pyntara.Text.{Text, codes, decimal, text_le}
use pyntara.Effects.{ok, raised}
use pyntara.Metrics.Store.{Directory, File, Store, google_script, find}
use pyntara.Metrics.Machine.{Calls, Action, pure, attempt, tell, ◌>>=◌, ◌>>◌, iterdir, query}
use pyntara.Metrics.Dispatch.{path_in}
use pyntara.Metrics.Times.{st_mtime}

abbrev pub send_order : Text
send_order = codes "oldest_first"

abbrev pub send_order_newest_first : Text
send_order_newest_first = codes "newest_first"

abbrev pub max_queue_file_size_bytes : ℕ
max_queue_file_size_bytes = 104857600

abbrev pub error_priority : Option ℕ
error_priority = some 3

abbrev pub channel_line : Text → Text
channel_line said = codes "google script channel: " ++ said

-- The order of (path.stat().st_mtime, path.name).
abbrev Key : Type 0
Key = ℕ × Text

abbrev pub key_le : Key → Key → Bool
key_le (m, name) (n, other) = ltb m n || (m == n && text_le name other)

unfoldable pub insert_key : Key → List Key → List Key
insert_key k [] = k ∷ []
insert_key k (l ∷ keys) =
    let rest = insert_key k keys in if key_le k l then k ∷ l ∷ keys else l ∷ rest

unfoldable pub sort_keys : List Key → List Key
sort_keys [] = []
sort_keys (k ∷ keys) = insert_key k (sort_keys keys)

abbrev pub key_names : List Key → List Text
key_names [] = []
key_names ((m, name) ∷ keys) = name ∷ key_names keys

-- Path.is_file
abbrev pub is_file : Directory → Store → Text → Bool
is_file d store name = elim (find name (store d)) [ none ↦ false | some f ↦ f.is_regular ]

-- Why an entry is skipped.
abbrev pub skip_reason : Text → File → Option Text
skip_reason name f =
    if not f.is_regular
    then some (name ++ codes " is not a regular file, skipping")
    else if length f.content == 0
    then some (name ++ codes " is empty, skipping")
    else if ltb max_queue_file_size_bytes (length f.content)
    then some (
        name
        ++ (codes " is "
            ++ (decimal (length f.content)
                ++ (codes " bytes, larger than the limit of "
                    ++ (decimal max_queue_file_size_bytes ++ codes " bytes, skipping")))))
    else none

module _ {W : Type 0} (calls : Calls W) where
  unfoldable pub regular_names : Directory → List Text → Action W (List Text)
  regular_names d found s = (ok (filter (is_file d s.store) found), s)

  unfoldable pub keyed : Directory → List Text → Action W (List Key)
  keyed d [] = pure []
  keyed d (name ∷ found) = do
    f ← query calls d name
    keys ← keyed d found
    pure ((st_mtime f.mtime, name) ∷ keys)

  unfoldable pub ordered_entries : Directory → (send_order : Text) → Action W (List Text)
  ordered_entries d order = do
    found ← iterdir calls d
    regular ← regular_names d found
    keys ← keyed d regular
    let entries = key_names (sort_keys keys)
    pure (if order == send_order_newest_first then reverse entries else entries)

  abbrev pub reported : Option Text → Action W Bool
  reported none = pure true
  reported (some reason) = tell (channel_line reason) error_priority >> pure false

  unfoldable pub entry_uploadable : Text → Action W Bool
  entry_uploadable name = do
    answer ← attempt (query calls google_script name)
    elim answer [
      | raised text ↦
          tell
            (channel_line
              (codes "cannot stat " ++ (path_in google_script name ++ (codes ": " ++ text))))
            error_priority
          >> pure false
      | ok f ↦ reported (skip_reason name f)
    ]

  unfoldable pub uploadable_among : List Text → Action W (List Text)
  uploadable_among [] = pure []
  uploadable_among (name ∷ found) = do
    uploadable ← entry_uploadable name
    entries ← uploadable_among found
    pure (if uploadable then name ∷ entries else entries)

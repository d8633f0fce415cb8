-- ===== src/Metrics/Vault.antt =====
-- The credentials of the channel: _read_password and open_runtime_vault_with_reason of metrics.py,
-- _google_script_credentials of metrics_send.py. Each is absent with a reason.
use pyntara.Shared.{Option, none, some, [], ◌++◌, ◌==◌, nat_eq, ◌||◌, not, if◌then◌else◌}
use pyntara.Text.{Text, codes, strip, is_nonempty}
use pyntara.Effects.{ok, raised}
use pyntara.Metrics.Machine.{Calls, VaultEntry, opened, credentials_error, open_failure}

-- values/local_vault_setup.py
abbrev pub local_vault_path : Text
local_vault_path = codes "/var/lib/pyntara/secrets/pyntara.vault"

abbrev pub pass_file_path : Text
pass_file_path = codes "/etc/pyntara/pass"

abbrev pub opening : Text → Text
opening reason = codes "opening runtime vault " ++ (local_vault_path ++ (codes ": " ++ reason))

-- A value, or the line that says why there is none.
pub data Reasoned (A : Type 0) : Type 0 where
  got : A → Reasoned A
  absent : (reason : Text) → Reasoned A

-- `text or None`
abbrev pub nonempty : Text → Option Text
nonempty text = if is_nonempty text then some text else none

module _ {W : Type 0} (calls : Calls W) where
  unfoldable pub read_password : W → Option Text
  read_password w = elim (calls.read_password_file w) [
    | ok text ↦ nonempty (strip text)
    | raised _ ↦ none
  ]

  abbrev open_with : Option Text → W → Reasoned (Text → Option VaultEntry)
  open_with none w =
      absent (opening (codes "password file " ++ (pass_file_path ++ codes " missing or empty")))
  open_with (some password) w = elim (calls.open_vault password w) [
    | opened find_entry ↦ got find_entry
    | credentials_error ↦ absent (opening (codes "password does not match"))
    | open_failure text ↦ absent (opening (codes "cannot open: " ++ text))
  ]

  unfoldable pub open_runtime_vault_with_reason : W → Reasoned (Text → Option VaultEntry)
  open_runtime_vault_with_reason w =
      if not (calls.vault_is_file w)
      then absent (opening (codes "absent"))
      else elim (calls.vault_size w) [
        | raised _ ↦ absent (opening (codes "cannot stat"))
        | ok size ↦
            if size == 0 then absent (opening (codes "empty")) else open_with (read_password w) w
      ]

  -- `(value or "").strip()`
  abbrev trimmed : Option Text → Text
  trimmed none = []
  trimmed (some text) = strip text

  abbrev google_script_key_entry_title : Text
  google_script_key_entry_title = codes "google_script_key"

  abbrev pub about_entry : Text → Text
  about_entry said = codes "google script channel: entry 'google_script_key'" ++ said

  abbrev credentials_of : Option VaultEntry → Reasoned (Text × Text)
  credentials_of none = absent (about_entry (codes " not found in the runtime vault"))
  credentials_of (some entry) =
      let url = trimmed entry.url in
      let key = trimmed entry.password in
      if not (is_nonempty url) || not (is_nonempty key)
      then absent (about_entry (codes " has an empty url or password"))
      else got (url, key)

  unfoldable pub google_script_credentials : W → Reasoned (Text × Text)
  google_script_credentials w = elim (open_runtime_vault_with_reason w) [
    | absent reason ↦ absent reason
    | got find_entry ↦ credentials_of (find_entry google_script_key_entry_title)
  ]

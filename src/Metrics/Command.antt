-- ===== src/Metrics/Command.antt =====
-- The command of an upload: substituted_command of utils.py, restore_original_name and
-- build_queue_name of metrics_commit.py, and Base64.
use pyntara.Shared.{
  ℕ, ◌+◌, ◌-◌, ◌*◌, ◌/◌, ◌%◌, ◌≡◌, refl, ◌||◌, Option, none, some, List, [], ◌∷◌, ◌++◌, arith,
  length, take, length-append, ◌==◌, nat_eq, list_eq, leb, if◌then◌else◌,
}
use pyntara.Text.{Text, codes, decimal}
use pyntara.Effects.{Answer, ok, raised}

-- str.format with fields that are plain names. Any other field, and a brace alone, is a failure here.
pub data Mode : Type 0 where
  plain after_open after_close : Mode
  field : Text → Mode

abbrev value_of : List (Text × Text) → Text → Option Text
value_of [] name = none
value_of ((n, value) ∷ values) name = if name == n then some value else value_of values name

abbrev continued : Option Text → Option (Text × Mode)
continued none = none
continued (some out) = some (out, plain)

abbrev read_code : List (Text × Text) → Mode → ℕ → Option (Text × Mode)
read_code values plain c =
    if c == b'{'
    then some ([], after_open)
    else if c == b'}'
    then some ([], after_close)
    else some (c ∷ [], plain)
read_code values after_open c =
    if c == b'{'
    then some (c ∷ [], plain)
    else if c == b'}' || c == b':' || c == b'!' || c == b'.' || c == b'['
    then none
    else some ([], field (c ∷ []))
read_code values after_close c = if c == b'}' then some (c ∷ [], plain) else none
read_code values (field name) c =
    if c == b'}'
    then continued (value_of values name)
    else if c == b'{' || c == b':' || c == b'!' || c == b'.' || c == b'['
    then none
    else some ([], field (name ++ c ∷ []))

abbrev joined_part : Text → Option Text → Option Text
joined_part out none = none
joined_part out (some rest) = some (out ++ rest)

unfoldable pub format_from : List (Text × Text) → Mode → Text → Option Text
format_from values plain [] = some []
format_from values after_open [] = none
format_from values after_close [] = none
format_from values (field name) [] = none
format_from values mode (c ∷ s) = elim (read_code values mode c) [
  | none ↦ none
  | some (out, mode') ↦ joined_part out (format_from values mode' s)
]

abbrev cons_part : Option Text → Answer (List Text) → Answer (List Text)
cons_part none rest = raised (codes "format")
cons_part (some part) (raised text) = raised text
cons_part (some part) (ok parts) = ok (part ∷ parts)

unfoldable pub substituted_command : List Text → List (Text × Text) → Answer (List Text)
substituted_command [] values = ok []
substituted_command (part ∷ command) values =
    cons_part (format_from values plain part) (substituted_command command values)

abbrev pub queue_file_suffix_length : ℕ
queue_file_suffix_length = 12

unfoldable pub build_queue_name : (original_name suffix : Text) → Text
build_queue_name original_name suffix = original_name ++ b'.' ∷ suffix

-- queue_name[: -(suffix_length + 1)], empty for a name that is shorter than that
unfoldable pub restore_original_name : (queue_name : Text) → (suffix_length : ℕ) → Text
restore_original_name queue_name suffix_length =
    take (length queue_name - (suffix_length + 1)) queue_name

take-append : (s t : Text) → take (length s) (s ++ t) ≡ s
take-append [] [] = refl
take-append [] (c ∷ t) = refl
take-append (c ∷ s) t = ground (arith, take-append s t)

-- The name that a queue entry was made of comes back when the suffix has the length that is
-- stripped.
pub restore_original_name-build_queue_name :
    (original_name suffix : Text)
    → restore_original_name (build_queue_name original_name suffix) (length suffix) ≡ original_name
unfolding restore_original_name build_queue_name
restore_original_name-build_queue_name original_name suffix =
    let e : length (original_name ++ b'.' ∷ suffix) - (length suffix + 1) ≡ length original_name =
      omega (arith, length-append original_name (b'.' ∷ suffix)) in
    rw e (take-append original_name (b'.' ∷ suffix))

-- base64.b64encode
abbrev base64_code : ℕ → ℕ
base64_code n =
    if leb n 25
    then b'A' + n
    else if leb n 51
    then b'a' + (n - 26)
    else if leb n 61
    then b'0' + (n - 52)
    else if n == 62
    then b'+'
    else b'/'

unfoldable pub b64encode : List ℕ → Text
b64encode [] = []
b64encode (x ∷ []) = base64_code (x / 4) ∷ base64_code (x % 4 * 16) ∷ b'=' ∷ b'=' ∷ []
b64encode (x ∷ y ∷ []) =
    base64_code (x / 4) ∷ base64_code (x % 4 * 16 + y / 16) ∷ base64_code (y % 16 * 4) ∷ b'=' ∷ []
b64encode (x ∷ y ∷ z ∷ bytes) =
    base64_code (x / 4)
    ∷ base64_code (x % 4 * 16 + y / 16)
    ∷ base64_code (y % 16 * 4 + z / 64)
    ∷ base64_code (z % 64)
    ∷ b64encode bytes

abbrev pub google_script_upload_command : List Text
google_script_upload_command =
    codes "curl"
    ∷ codes "--location"
    ∷ codes "--max-time"
    ∷ codes "{timeout_seconds}"
    ∷ codes "--silent"
    ∷ codes "--show-error"
    ∷ codes "--data-urlencode"
    ∷ codes "filename={file_name}"
    ∷ codes "--data-urlencode"
    ∷ codes "pass={key}"
    ∷ codes "--data-urlencode"
    ∷ codes "data@-"
    ∷ []

abbrev pub google_script_timeout_seconds : ℕ
google_script_timeout_seconds = 7777

-- The command of _send_entry, for the name of a queue entry.
unfoldable pub upload_command : (name url key : Text) → Answer (List Text)
upload_command name url key = with_url (
    substituted_command google_script_upload_command (
      (codes "timeout_seconds", decimal google_script_timeout_seconds)
      ∷ (codes "file_name", restore_original_name name queue_file_suffix_length)
      ∷ (codes "key", key)
      ∷ []))
  where
    with_url : Answer (List Text) → Answer (List Text)
    with_url (ok command) = ok (command ++ url ∷ [])
    with_url (raised text) = raised text

-- ===== src/Entry/Desktop.antt =====
-- pyntara.py: the account of the desktop session and its home directory.
use pyntara.Shared.{
  ℕ, Bool, ◌&&◌, Option, none, some, List, [], ◌∷◌, map, filter, leb, ltb, ◌==◌, nat_eq, list_eq,
  option_eq, if◌then◌else◌,
}
use pyntara.Text.{Text, codes, strip, split, splitlines, starts_with, after, contains_code, before}
use pyntara.Entry.Environment.{environment_username, non_empty}

-- The values of values/engine.py and values/common.py that name a session and an account.
abbrev pub desktop_user_env_name : Text
desktop_user_env_name = codes "PYNTARA_DESKTOP_USER"

abbrev pub sudo_user_env_name : Text
sudo_user_env_name = codes "SUDO_USER"

abbrev pub declared_username : Text
declared_username = codes "i"

abbrev pub declared_home_dir : Text
declared_home_dir = codes "/home/i"

-- One entry of the account database.
pub record Account : Type 0 where
  pub pw_name : Text
  pub pw_uid : ℕ
  pub pw_dir : Text

-- A query of the session manager: no answer (a missing tool, an exception, a timeout), or the
-- exit status and the output.
pub data Query : Type 0 where
  unanswered : Query
  answered : (returncode : ℕ) (stdout : Text) → Query

-- What the resolution reads of the machine.
pub record Accounts : Type 0 where
  pub environ : Text → Option Text
  -- pwd.getpwnam, None for a KeyError, and pwd.getpwall
  pub getpwnam : Text → Option Account
  pub getpwall : List Account
  -- LOGINCTL_LIST_SESSIONS_COMMAND, and LOGINCTL_SHOW_SESSION_COMMAND for one session
  pub list_sessions : Query
  pub show_session : Text → Query

-- properties[name] = value: a later line of one name replaces an earlier one.
abbrev pub insert : Text → Text → List (Text × Text) → List (Text × Text)
insert k v [] = (k, v) ∷ []
insert k v ((j, w) ∷ rest) = if j == k then (k, v) ∷ rest else (j, w) ∷ insert k v rest

abbrev pub get : Text → List (Text × Text) → Option Text
get k [] = none
get k ((j, w) ∷ rest) = if j == k then some w else get k rest

-- The loop over the lines of one session: KEY=VALUE, other lines are passed over.
unfoldable pub properties_of : List Text → List (Text × Text) → List (Text × Text)
properties_of [] properties = properties
properties_of (line ∷ lines) properties = properties_of lines (
    if contains_code b'=' line
    then insert (strip (before b'=' line)) (strip (after b'=' line)) properties
    else properties)

unfoldable pub loginctl_session_properties : Query → List (Text × Text)
unfolding properties_of
loginctl_session_properties unanswered = []
loginctl_session_properties (answered returncode stdout) =
    if returncode == 0 then properties_of (splitlines stdout) [] else []

unfoldable pub is_seated : List (Text × Text) → Bool
is_seated properties =
    get (codes "Seat") properties == some (codes "seat0")
    && get (codes "Class") properties == some (codes "user")

module _ (host : Accounts) where
  -- The account of the first seated session among the listed ones.
  unfoldable pub seated_in : List Text → Option Text
  unfolding loginctl_session_properties is_seated
  seated_in [] = none
  seated_in (line ∷ lines) = elim (split line) [
    | [] ↦ seated_in lines
    | session_id ∷ columns ↦
        let properties = loginctl_session_properties (host.show_session session_id) in
        if is_seated properties then non_empty (get (codes "Name") properties) else seated_in lines
  ]

  unfoldable pub seated_session_username : Option Text
  unfolding seated_in
  seated_session_username = elim host.list_sessions [
    | unanswered ↦ none
    | answered returncode stdout ↦ if returncode == 0 then seated_in (splitlines stdout) else none
  ]

  unfoldable pub is_human : Account → Bool
  is_human entry =
      leb 1000 entry.pw_uid && ltb entry.pw_uid 60000 && starts_with (codes "/home/") entry.pw_dir

  unfoldable pub single_human_username : Option Text
  unfolding is_human
  single_human_username = elim (map (λ e. e.pw_name) (filter is_human host.getpwall)) [
    | [] ↦ none
    | name ∷ others ↦ elim others [ [] ↦ some name | _ ∷ _ ↦ none ]
  ]

  unfoldable pub account_home : Text → Option Text
  account_home username = elim (host.getpwnam username) [
    | none ↦ none
    | some entry ↦ non_empty (some entry.pw_dir)
  ]

  -- The signals in order of certainty.
  unfoldable pub candidates : List (Option Text)
  unfolding environment_username seated_session_username single_human_username
  candidates =
      environment_username host.environ desktop_user_env_name
      ∷ environment_username host.environ sudo_user_env_name
      ∷ seated_session_username
      ∷ single_human_username
      ∷ []

  -- `if not username: continue`, and a home that is not known
  unfoldable pub answer_of : Option Text → Option (Text × Text)
  unfolding account_home
  answer_of username = elim (non_empty username) [
    | none ↦ none
    | some name ↦ elim (account_home name) [ none ↦ none | some home_dir ↦ some (name, home_dir) ]
  ]

  unfoldable pub first_answer : List (Option Text) → Text × Text
  unfolding answer_of
  first_answer [] = (declared_username, declared_home_dir)
  first_answer (username ∷ rest) = elim (answer_of username) [
    | none ↦ first_answer rest
    | some answer ↦ answer
  ]

  unfoldable pub get_desktop_username_and_home : Text × Text
  unfolding first_answer candidates
  get_desktop_username_and_home = first_answer candidates

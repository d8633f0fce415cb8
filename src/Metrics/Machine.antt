-- ===== src/Metrics/Machine.antt =====
-- What the code of the queue calls: the directories, which may refuse a call, curl, the vault, the
-- clock and the choice of random; and programs that may raise an OSError, whose `str` is kept.
use pyntara.Shared.{ℕ, Bool, true, false, Option, none, some, List, [], ◌∷◌, ◌++◌}
use pyntara.Text.{Text}
use pyntara.Effects.{Answer, ok, raised}
unfoldable pub use pyntara.Programs.{Program, pure, from, attempt, followed_by, ◌>>=◌, ◌>>◌}
use pyntara.Metrics.Store.{Directory, File, Store, names, at, bind, unbind}

-- A call of a directory, with the places that it names.
pub data Call : Type 0 where
  making listing : Directory → Call
  linking replacing copying : (source : Directory) → Text → (target : Directory) → Text → Call
  unlinking reading querying changing : Directory → Text → Call

-- The status of a process that ended by itself or by a signal.
pub data ReturnCode : Type 0 where
  exited : ℕ → ReturnCode
  signalled : ℕ → ReturnCode

pub record Completed : Type 0 where
  pub returncode : ReturnCode
  pub stdout : Text
  pub stderr : Text

-- An entry of the vault that was found.
pub record VaultEntry : Type 0 where
  pub url : Option Text
  pub password : Option Text

-- An open vault, as the search for an entry by its title.
pub data Opened : Type 0 where
  opened : (Text → Option VaultEntry) → Opened
  credentials_error : Opened
  open_failure : Text → Opened

pub record Calls (W : Type 0) : Type 0 where
  -- the OSError of a call that the file system does not carry out
  pub refusal : Call → W → Option Text × W
  -- the OSError of a name that is not there, and of one that is taken
  pub missing_error : Directory → Text → Text
  pub exists_error : Directory → Text → Text
  -- Path.is_dir
  pub is_dir : Directory → W → Bool
  -- the command and its standard input; an overrun or a command that does not start is raised
  pub run_command : List Text → Text → W → Answer Completed × W
  -- the index that random.choice takes, of so many
  pub choice : ℕ → W → ℕ × W
  pub vault_is_file : W → Bool
  pub vault_size : W → Answer ℕ
  pub read_password_file : W → Answer Text
  pub open_vault : (password : Text) → W → Opened
  -- secrets.choice over the alphabet, so many times
  pub random_suffix : (length : ℕ) → W → Text × W
  -- secrets.token_hex
  pub token_hex : (bytes : ℕ) → W → Text × W
  pub sleep : ℕ → W → W

-- A line of log_progress; none is its default priority.
pub record JournalLine : Type 0 where
  pub text : Text
  pub priority : Option ℕ

pub record State (W : Type 0) : Type 0 where
  pub world : W
  pub store : Store
  pub journal : List JournalLine

abbrev pub Action : Type 0 → Type 0 → Type 0
Action W A = Program (State W) A

module _ {W A : Type 0} where
  -- What a read of the machine answers.
  unfoldable pub observe : (W → A) → Action W A
  observe f s = (ok (f s.world), s)

  unfoldable pub ask : (W → A × W) → Action W A
  ask f s = let (a, w) = f s.world in (ok a, record s { world = w })

  abbrev pub changed : Answer (A × Store) → State W → Answer A × State W
  changed (ok (a, store)) s = (ok a, record s { store = store })
  changed (raised text) s = (raised text, s)

  abbrev pub unless_refused :
      Option Text → (Store → Answer (A × Store)) → State W → Answer A × State W
  unless_refused none act s = changed (act s.store) s
  unless_refused (some text) act s = (raised text, s)

  unfoldable pub perform : Calls W → Call → (Store → Answer (A × Store)) → Action W A
  perform calls call act s =
      let (refused, w) = calls.refusal call s.world in
      unless_refused refused act (record s { world = w })

unfoldable pub tell : {W : Type 0} → Text → Option ℕ → Action W (Unit {0})
tell text priority s =
    (ok tt, record s { journal = s.journal ++ record { text = text; priority = priority } ∷ [] })

module _ {W : Type 0} (calls : Calls W) where
  unfoldable pub mkdir : Directory → Action W (Unit {0})
  mkdir d = perform calls (making d) (λ store. ok (tt, store))

  -- iterdir
  unfoldable pub iterdir : Directory → Action W (List Text)
  iterdir d = perform calls (listing d) (λ store. ok (names (store d), store))

  abbrev pub file_of :
      {A : Type 0}
      → Directory
      → Text
      → (File → Answer (A × Store))
      → Option File
      → Answer (A × Store)
  file_of d name found none = raised (calls.missing_error d name)
  file_of d name found (some f) = found f

  abbrev pub free_name : Directory → Text → Store → Option File → Answer (Unit {0} × Store)
  free_name d name after none = ok (tt, after)
  free_name d name after (some f) = raised (calls.exists_error d name)

  -- os.link: it never replaces a name.
  unfoldable pub link :
      (source : Directory) → Text → (target : Directory) → Text → Action W (Unit {0})
  link source name target as_name = perform calls (linking source name target as_name) (λ store.
      file_of source name
        (λ f. free_name target as_name (bind target as_name f store) (at store target as_name))
        (at store source name))

  abbrev pub tried : (linked store : Store) → Option File → Answer (Bool × Store)
  tried linked store none = ok (true, linked)
  tried linked store (some f) = ok (false, store)

  -- os.link in a `try ... except FileExistsError`: false when the name is taken.
  unfoldable pub link_if_free :
      (source : Directory) → Text → (target : Directory) → Text → Action W Bool
  link_if_free source name target as_name =
      perform calls (linking source name target as_name) (λ store.
        file_of source name
          (λ f. tried (bind target as_name f store) store (at store target as_name))
          (at store source name))

  -- shutil.copy2: the content and the times, over a file that is there.
  unfoldable pub copy :
      (source : Directory) → Text → (target : Directory) → Text → Action W (Unit {0})
  copy source name target as_name = perform calls (copying source name target as_name) (λ store.
      file_of source name (λ f. ok (tt, bind target as_name f store)) (at store source name))

  -- os.chmod and os.utime
  unfoldable pub change : Directory → Text → (File → File) → Action W (Unit {0})
  change d name f =
      perform calls (changing d name)
        (λ store. file_of d name (λ file. ok (tt, bind d name (f file) store)) (at store d name))

  -- unlink(missing_ok=True)
  unfoldable pub unlink : Directory → Text → Action W (Unit {0})
  unlink d name = perform calls (unlinking d name) (λ store. ok (tt, unbind d name store))

  -- os.replace, of a name into another directory: it replaces a name that is there.
  unfoldable pub replace :
      (source : Directory) → Text → (target : Directory) → Text → Action W (Unit {0})
  replace source name target as_name =
      perform calls (replacing source name target as_name) (λ store.
        file_of source name (λ f. ok (tt, bind target as_name f (unbind source name store)))
          (at store source name))

  unfoldable pub read_bytes : Directory → Text → Action W (List ℕ)
  read_bytes d name =
      perform calls (reading d name)
        (λ store. file_of d name (λ f. ok (f.content, store)) (at store d name))

  -- stat
  unfoldable pub query : Directory → Text → Action W File
  query d name =
      perform calls (querying d name)
        (λ store. file_of d name (λ f. ok (f, store)) (at store d name))

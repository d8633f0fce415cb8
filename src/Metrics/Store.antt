-- ===== src/Metrics/Store.antt =====
-- The directories of the queue: a file under each name, with the calls that change them. A hard
-- link shares the file, so the same file stands under both names; nothing writes to a file that
-- has been published.
use pyntara.Shared.{
  ℕ, ◌≡◌, refl, inl, inr, Bool, true, false, ◌&&◌, Option, none, some, List, [], ◌∷◌, arith,
  Bool-cases, contains, ◌==◌, nat_eq, list_eq, if◌then◌else◌,
}
use pyntara.Text.{Text}

pub data Directory : Type 0 where
  root spool temp main_outbox google_script main_sent : Directory

-- `mtime` counts nanoseconds.
pub record File : Type 0 where
  pub content : List ℕ
  pub mode : ℕ
  pub mtime : ℕ
  pub is_regular : Bool

abbrev pub Files : Type 0
Files = List (Text × File)

-- The names of a directory, each once.
abbrev pub names : Files → List Text
names [] = []
names ((n, f) ∷ files) = if contains (names files) n then names files else n ∷ names files

unfoldable pub find : Text → Files → Option File
find name [] = none
find name ((n, f) ∷ files) = if name == n then some f else find name files

unfoldable pub remove : Text → Files → Files
remove name [] = []
remove name ((n, f) ∷ files) =
    let rest = remove name files in if name == n then rest else (n, f) ∷ rest

abbrev pub with_entry : Text → File → Files → Files
with_entry name f files = (name, f) ∷ remove name files

pub find-remove : (name : Text) (files : Files) → find name (remove name files) ≡ none
unfolding find remove
find-remove name [] = refl
find-remove name ((n, f) ∷ files) =
    let ih = find-remove name files in
    elim (Bool-cases (name == n)) [ inl e ↦ rw e ih | inr d ↦ rw (d, find) (rw d ih) ]

pub find-remove_other :
    (name other : Text) (files : Files)
    → (name == other) ≡ false
    → find name (remove other files) ≡ find name files
unfolding find remove
find-remove_other name other [] h = refl
find-remove_other name other ((n, f) ∷ files) h =
    let ih = find-remove_other name other files h in
    elim (Bool-cases (other == n)) [
      | inl e ↦ let apart : (name == n) ≡ false = ground arith in rw (e, apart, ih)
      | inr d ↦ rw (d, find) (rw ih)
    ]

abbrev pub Store : Type 0
Store = Directory → Files

unfoldable pub same : Directory → Directory → Bool
same root root = true
same spool spool = true
same temp temp = true
same main_outbox main_outbox = true
same google_script google_script = true
same main_sent main_sent = true
same _ _ = false

unfoldable pub put : Directory → Files → Store → Store
unfolding same
put d files store d' = if same d d' then files else store d'

-- The file that a path names.
unfoldable pub at : Store → Directory → Text → Option File
at store d name = find name (store d)

unfoldable pub bind : Directory → Text → File → Store → Store
unfolding put
bind d name f store = put d (with_entry name f (store d)) store

unfoldable pub unbind : Directory → Text → Store → Store
unfolding put remove
unbind d name store = put d (remove name (store d)) store

pub same→≡ : (d d' : Directory) → same d d' ≡ true → d ≡ d'
unfolding same
same→≡ root root h = refl
same→≡ spool spool h = refl
same→≡ temp temp h = refl
same→≡ main_outbox main_outbox h = refl
same→≡ google_script google_script h = refl
same→≡ main_sent main_sent h = refl
same→≡ d d' h = absurd (cc)

same_refl : (d : Directory) → same d d ≡ true
unfolding same
same_refl root = refl
same_refl spool = refl
same_refl temp = refl
same_refl main_outbox = refl
same_refl google_script = refl
same_refl main_sent = refl

module _ (d : Directory) (name : Text) (store : Store) where
  pub at-bind : (f : File) → at (bind d name f store) d name ≡ some f
  unfolding at bind put find
  at-bind f = rw (same_refl d) (ground arith)

  pub at-unbind : at (unbind d name store) d name ≡ none
  unfolding at unbind put
  at-unbind = rw (same_refl d) (find-remove name (store d))

  -- Another directory, or another name in it.
  pub at-bind_other :
      (f : File) (d' : Directory) (name' : Text)
      → ((same d d' && name' == name) ≡ false)
      → at (bind d name f store) d' name' ≡ at store d' name'
  unfolding at bind put find
  at-bind_other f d' name' h = elim (Bool-cases (same d d')) [
    | inl e ↦
        let apart : (name' == name) ≡ false = ground arith in
        rw (e, same→≡ d d' e) (rw (apart, find) (find-remove_other name' name (store d') apart))
    | inr n ↦ rw n
  ]

  pub at-unbind_other :
      (d' : Directory) (name' : Text)
      → ((same d d' && name' == name) ≡ false)
      → at (unbind d name store) d' name' ≡ at store d' name'
  unfolding at unbind put
  at-unbind_other d' name' h = elim (Bool-cases (same d d')) [
    | inl e ↦
        let apart : (name' == name) ≡ false = ground arith in
        rw (e, same→≡ d d' e) (find-remove_other name' name (store d') apart)
    | inr n ↦ rw n
  ]

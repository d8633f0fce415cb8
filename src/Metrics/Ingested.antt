-- ===== src/Metrics/Ingested.antt =====
-- What the ingest does to a file of the spool and to the files of the outbox.
mod Published
pub mod Whole
use pyntara.Shared.{
  ◌≡◌, ◌≢◌, refl, sym, ap, subst, ◌∙◌, ◌⊎◌, inl, inr, Bool, true, false, ◌&&◌, Option, none, some,
  ◌==◌, ==-cases, nat_eq, list_eq, arith,
}
use pyntara.Text.{Text}
use pyntara.Effects.{Answer, ok, raised}
use pyntara.Metrics.Store.{
  Directory, spool, temp, main_outbox, File, Store, same, at, bind, unbind, at-bind, at-unbind,
  at-bind_other, at-unbind_other,
}
use pyntara.Metrics.Command.{build_queue_name}
use pyntara.Metrics.Times.{st_mtime, commit_time_ns}
use pyntara.Metrics.Ingest.{reject_reason}

-- The content of a file, and the time that its publication is given.
abbrev pub Matches : File → File → Type 0
Matches f g = (f.content ≡ g.content) × (f.mtime ≡ commit_time_ns (st_mtime g.mtime))

-- The file is in the outbox, under the name with a suffix.
abbrev pub IsPublished : Text → File → Store → Type 0
IsPublished name f store =
    (suffix : Text) × (g : File) × (at store main_outbox (build_queue_name name suffix) ≡ some g)
    × Matches g f

-- A file of the spool is there still, or published, or one that is rejected.
abbrev pub IsSafe : Text → File → Store → Type 0
IsSafe name f store =
    (at store spool name ≡ some f) ⊎ IsPublished name f store ⊎ (reject_reason (ok f) ≢ none)

-- What stood at a name is what is found there, when anything stood there.
abbrev pub Stays : Option File → Option File → Type 0
Stays none found = Unit
Stays (some g) found = found ≡ some g

pub Stays-refl : (held : Option File) → Stays held held
Stays-refl none = tt
Stays-refl (some g) = refl

-- Both: a file `f` of the spool, and what stands at a name of the outbox.
module _ (name queue_name : Text) (f : File) (held : Option File) where
  abbrev pub IsSound : Store → Type 0
  IsSound store = IsSafe name f store × Stays held (at store main_outbox queue_name)

  -- What a change may do, to be sound: it leaves the spool entry, and the names of the outbox
  -- that stand for a file.
  abbrev pub Leaves : Store → Store → Type 0
  Leaves before after =
      (at after spool name ≡ at before spool name)
      × ((m : Text) (h : File) → at before main_outbox m ≡ some h → at after main_outbox m ≡ some h)

  Stays-Leaves :
      (held : Option File) (before after : Store)
      → Leaves before after
      → Stays held (at before main_outbox queue_name)
      → Stays held (at after main_outbox queue_name)
  Stays-Leaves none before after l o = tt
  Stays-Leaves (some g) before after l o = l.1 queue_name g o

  pub IsSound-Leaves : (before after : Store) → Leaves before after → IsSound before → IsSound after
  IsSound-Leaves before after l (inl h, o) = (inl (l.0 ∙ h), Stays-Leaves held before after l o)
  IsSound-Leaves before after l (inr (inl (suffix, h, at_h, m)), o) =
      (inr (inl (suffix, h, l.1 _ h at_h, m)), Stays-Leaves held before after l o)
  IsSound-Leaves before after l (inr (inr r), o) = (inr (inr r), Stays-Leaves held before after l o)

  -- Calls in temp leave both.
  pub bind_temp-Leaves :
      (temp_name : Text) (h : File) (store : Store) → Leaves store (bind temp temp_name h store)
  unfolding same
  bind_temp-Leaves temp_name h store = (
    at-bind_other temp temp_name store h spool name refl,
    λ m h' e. at-bind_other temp temp_name store h main_outbox m refl ∙ e,
  )

  pub unbind_temp-Leaves :
      (temp_name : Text) (store : Store) → Leaves store (unbind temp temp_name store)
  unfolding same
  unbind_temp-Leaves temp_name store = (
    at-unbind_other temp temp_name store spool name refl,
    λ m h' e. at-unbind_other temp temp_name store main_outbox m refl ∙ e,
  )

  -- A new name of the outbox.
  pub bind_outbox-Leaves :
      (free : Text) (h : File) (store : Store)
      → at store main_outbox free ≡ none
      → Leaves store (bind main_outbox free h store)
  unfolding same
  bind_outbox-Leaves free h store e = (
    at-bind_other main_outbox free store h spool name refl,
    λ m h' e'. elim (==-cases m free) [
      | inl same ↦ absurd (cc (e, e', same))
      | inr d ↦ at-bind_other main_outbox free store h main_outbox m (rw d) ∙ e'
    ],
  )

  -- The removal of another entry of the spool.
  pub unbind_other-Leaves :
      (other : Text) (store : Store)
      → (name == other) ≡ false
      → Leaves store (unbind spool other store)
  unfolding same
  unbind_other-Leaves other store d = (
    at-unbind_other spool other store spool name (rw d),
    λ m h e. at-unbind_other spool other store main_outbox m refl ∙ e,
  )

  -- The removal of the entry itself, once it is published or because it is rejected.
  pub IsSound-unbind :
      (other : Text) (store : Store)
      → (name ≡ other → IsPublished name f store ⊎ (reject_reason (ok f) ≢ none))
      → IsSound store
      → IsSound (unbind spool other store)
  unfolding same
  IsSound-unbind other store h (safe, o) = elim (==-cases name other) [
    | inr d ↦ IsSound-Leaves store _ (unbind_other-Leaves other store d) (safe, o)
    | inl e ↦
        let kept = at-unbind_other spool other store main_outbox in
        let o' = subst (Stays held) (sym (kept queue_name refl)) o in
        elim (h e) [
          | inl (suffix, p, at_p, m) ↦ (inr (inl (suffix, p, kept _ refl ∙ at_p, m)), o')
          | inr r ↦ (inr (inr r), o')
        ]
  ]

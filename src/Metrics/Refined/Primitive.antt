-- ===== src/Metrics/Refined/Primitive.antt =====
-- The calls of the directories move the files along the steps of Stages.
use pyntara.Shared.{◌≡◌, refl, ◌∙◌, inl, inr, Option, none, some, ==-cases, nat_eq, list_eq}
use pyntara.Text.{Text}
use pyntara.Effects.{Answer, ok}
use pyntara.Metrics.Store.{
  Directory, File, Store, main_outbox, google_script, main_sent, same, at, bind, unbind, at-bind,
  at-bind_other,
}
use pyntara.Metrics.Machine.{
  Call, Calls, State, file_of, free_name, perform, link, mkdir, unlink, replace, iterdir,
  read_bytes, query,
}
use pyntara.Metrics.Rule.{Answers, perform-Holds}
use pyntara.Metrics.Stages.{linked, released, archived, here, then}
use pyntara.Metrics.Views.{
  view-linked, view-released, view-archived, view-bind_other, view-unbind_other,
}
use pyntara.Metrics.Refined.{Refines, Reaches, Anywhere, Preserves}

-- The entry is in main_outbox and, linked, in the channel.
abbrev pub IsLinked : Text → Store → Type 0
IsLinked name store =
    (f : File) × (at store main_outbox name ≡ some f) × (at store google_script name ≡ some f)

link-Refines :
    (name : Text) (f : File) (store : Store)
    → at store main_outbox name ≡ some f
    → at store google_script name ≡ none
    → Refines store (bind google_script name f store)
link-Refines name f store o g n' = elim (==-cases n' name) [
  | inl e ↦ rw e (rw (view-linked name store f, o, g) (then linked here))
  | inr d ↦ rw (view-bind_other name store google_script n' d f) here
]

unlink-Refines :
    (name : Text) (store : Store)
    → IsLinked name store
    → Refines store (unbind main_outbox name store)
unlink-Refines name store (f, o, g) n' = elim (==-cases n' name) [
  | inl e ↦ rw e (rw (view-released name store, o, g) (then released here))
  | inr d ↦ rw (view-unbind_other name store main_outbox n' d) here
]

replace-Refines :
    (name : Text) (f : File) (store : Store)
    → at store google_script name ≡ some f
    → Refines store (bind main_sent name f (unbind google_script name store))
replace-Refines name f store g n' = elim (==-cases n' name) [
  | inl e ↦ rw e (rw (view-archived name store f, g) (then archived here))
  | inr d ↦
      rw
        (
          view-bind_other name (unbind google_script name store) main_sent n' d f,
          view-unbind_other name store google_script n' d,
        )
        here
]

-- What a call did to the directories when it succeeded.
abbrev Does : {A : Type 0} → (Q : A → Store → Type 0) → Store → Answer (A × Store) → Type 0
Does Q before answer =
    Answers (λ a store. Refines before store × Q a store) (λ store. Refines before store) before
      answer

module _ {W : Type 0} (calls : Calls W) where
  perform-Reaches :
      {A : Type 0} (Q : A → Store → Type 0) (call : Call) (act : Store → Answer (A × Store))
      (s : State W)
      → Does Q s.store (act s.store)
      → Reaches Q s (perform calls call act s)
  perform-Reaches Q call act s h = perform-Holds _ _ calls call act s (λ name. here) h

  pub mkdir-Preserves : (d : Directory) → Preserves (mkdir calls d)
  unfolding mkdir
  mkdir-Preserves d s = perform-Reaches Anywhere _ _ s (λ name. here, tt)

  pub iterdir-Preserves : (d : Directory) → Preserves (iterdir calls d)
  unfolding iterdir
  iterdir-Preserves d s = perform-Reaches Anywhere _ _ s (λ name. here, tt)

  pub link-Reaches :
      (name : Text) (s : State W)
      → Reaches (λ _. IsLinked name) s (link calls main_outbox name google_script name s)
  unfolding link same
  link-Reaches name s =
      perform-Reaches (λ _. IsLinked name) _ _ s (sources (at s.store main_outbox name) refl)
    where
      targets :
          (f : File) (o : at s.store main_outbox name ≡ some f) (g : Option File)
          → at s.store google_script name ≡ g
          → Does
              (λ _. IsLinked name)
              s.store
              (free_name calls google_script name (bind google_script name f s.store) g)
      targets f o none e = (
        link-Refines name f s.store o e,
        (
          f,
          at-bind_other google_script name s.store f main_outbox name refl ∙ o,
          at-bind google_script name s.store f,
        ),
      )
      targets f o (some g) e = λ n. here

      sources :
          (o : Option File)
          → at s.store main_outbox name ≡ o
          → Does
              (λ _. IsLinked name)
              s.store
              (file_of calls main_outbox name
                (λ f.
                  free_name calls google_script name
                    (bind google_script name f s.store)
                    (at s.store google_script name))
                o)
      sources none e = λ n. here
      sources (some f) e = targets f e (at s.store google_script name) refl

  pub unlink-Reaches :
      (name : Text) (s : State W)
      → IsLinked name s.store
      → Reaches Anywhere s (unlink calls main_outbox name s)
  unfolding unlink
  unlink-Reaches name s h = perform-Reaches Anywhere _ _ s (unlink-Refines name s.store h, tt)

  pub replace-Preserves :
      (name : Text) → Preserves (replace calls google_script name main_sent name)
  unfolding replace
  replace-Preserves name s =
      perform-Reaches Anywhere _ _ s (sources (at s.store google_script name) refl)
    where
      sources :
          (g : Option File)
          → at s.store google_script name ≡ g
          → Does Anywhere s.store (
              file_of calls google_script name
                (λ f. ok (tt, bind main_sent name f (unbind google_script name s.store)))
                g)
      sources none e = λ n. here
      sources (some f) e = (replace-Refines name f s.store e, tt)

  pub read_bytes-Preserves : (d : Directory) (name : Text) → Preserves (read_bytes calls d name)
  unfolding read_bytes
  read_bytes-Preserves d name s = perform-Reaches Anywhere _ _ s (sources (at s.store d name))
    where
      sources :
          (found : Option File)
          → Does Anywhere s.store (file_of calls d name (λ f. ok (f.content, s.store)) found)
      sources none = λ n. here
      sources (some f) = (λ n. here, tt)

  pub query-Preserves : (d : Directory) (name : Text) → Preserves (query calls d name)
  unfolding query
  query-Preserves d name s = perform-Reaches Anywhere _ _ s (sources (at s.store d name))
    where
      sources :
          (found : Option File)
          → Does Anywhere s.store (file_of calls d name (λ f. ok (f, s.store)) found)
      sources none = λ n. here
      sources (some f) = (λ n. here, tt)

-- ===== src/Metrics/Dispatched/Linking.antt =====
-- One entry of the outbox: its links, and its removal.
use pyntara.Shared.{
  ◌≡◌, refl, ap, ◌∙◌, ◌⊎◌, inl, inr, false, Option, none, some, [], ◌==◌, ==-cases, nat_eq, list_eq,
}
use pyntara.Text.{Text}
use pyntara.Effects.{Answer}
use pyntara.Metrics.Store.{File, Store, main_outbox, google_script, main_sent, at, bind}
use pyntara.Metrics.Machine.{Calls, State, file_of, free_name, link, unlink}
use pyntara.Metrics.Stages.{View, seen, view, archive_of}
use pyntara.Metrics.Views.{view-linked, view-released, view-bind_other, view-unbind_other}
use pyntara.Metrics.Rule.{
  Holds, Holds-weaken, Answers, perform-Holds, pure-Holds, tell-Holds, bind-Holds, try-Holds,
}
use pyntara.Metrics.Dispatch.{link_all, unlink_all, concluded, channels}

-- The view of a name changes only when the name waits and its place in the channel is free, and
-- its place in the archive does not.
abbrev pub Moved : View → View → Type 0
Moved v w =
    (w ≡ v) ⊎ ((f : File) × (t : Option File) × (v ≡ seen (some f) none t) × (archive_of w ≡ t))

released_view : View → View
released_view (seen o g t) = seen none g t

module _ (name entry : Text) where
  -- The name is the entry, and it was linked; or it is another and keeps its view.
  abbrev pub Linked : View → View → Type 0
  Linked v w =
      (((name == entry) ≡ false) × (w ≡ v))
      ⊎ ((f : File) × (t : Option File) × (name ≡ entry)
          × (v ≡ seen (some f) none t)
          × (w ≡ seen (some f) (some f) t))

  -- The end of the loop over the channels.
  abbrev pub Tried : View → Option Text → View → Type 0
  Tried v none w = Linked v w
  Tried v (some text) w = w ≡ v

  Released : View → View → Type 0
  Released v w = ((name == entry) ≡ false → w ≡ v) × (name ≡ entry → w ≡ released_view v)

  -- Behind an entry without a failure.
  abbrev pub Dispatched : View → Option Text → View → Type 0
  Dispatched v none w =
      (((name == entry) ≡ false) × (w ≡ v))
      ⊎ ((f : File) × (t : Option File) × (name ≡ entry)
          × (v ≡ seen (some f) none t)
          × (w ≡ seen none (some f) t))
  Dispatched v (some text) w = w ≡ v

module _ {W : Type 0} (calls : Calls W) (name entry : Text) where
  link-Linked :
      (s : State W)
      → Holds
          (λ _ store. Linked name entry (view s.store name) (view store name))
          (λ store. view store name ≡ view s.store name)
          (link calls main_outbox entry google_script entry s)
  unfolding link
  link-Linked s = perform-Holds _ _ calls _ _ s refl (sources (at s.store main_outbox entry) refl)
    where
      Done : Answer (Unit {0} × Store) → Type 0
      Done =
          Answers (λ _ store. Linked name entry (view s.store name) (view store name))
            (λ store. view store name ≡ view s.store name) s.store

      targets :
          (f : File) (o : at s.store main_outbox entry ≡ some f) (g : Option File)
          → at s.store google_script entry ≡ g
          → Done (free_name calls google_script entry (bind google_script entry f s.store) g)
      targets f o none e = elim (==-cases name entry) [
        | inl same ↦ inr (
          f,
          at s.store main_sent entry,
          same,
          rw same (rw (o, e)),
          rw same (rw (view-linked entry s.store f, o)),
        )
        | inr d ↦ inl (d, view-bind_other entry s.store google_script name d f)
      ]
      targets f o (some g) e = refl

      sources :
          (o : Option File)
          → at s.store main_outbox entry ≡ o
          → Done (
              file_of calls main_outbox entry
                (λ f.
                  free_name calls google_script entry
                    (bind google_script entry f s.store)
                    (at s.store google_script entry))
                o)
      sources none e = refl
      sources (some f) e = targets f e (at s.store google_script entry) refl

  pub link_all-Tried :
      (s : State W)
      → Holds
          (λ failure store. Tried name entry (view s.store name) failure (view store name))
          (λ store. view store name ≡ view s.store name)
          (link_all calls entry [] channels s)
  unfolding link_all unlink_all
  link_all-Tried s =
      try-Holds _ _ _ _ _ _ s (link-Linked s) (λ _ s' h. pure-Holds _ _ none s' h)
        (λ text s' h.
          bind-Holds (λ _ store. view store name ≡ view s.store name) _ _ _ _ s'
            (pure-Holds _ _ tt s' h) (λ _ s'' h'. pure-Holds _ _ _ s'' h'))

  unlinks :
      (s : State W)
      → Holds
          (λ _ store. Released name entry (view s.store name) (view store name))
          (λ store. view store name ≡ view s.store name)
          (unlink calls main_outbox entry s)
  unfolding unlink Released released_view
  unlinks s = perform-Holds _ _ calls _ _ s refl (
    λ d. view-unbind_other entry s.store main_outbox name d,
    λ same. rw same (view-released entry s.store),
  )

  pub concluded-Dispatched :
      (v : View) (failure : Option Text) (s : State W)
      → Tried name entry v failure (view s.store name)
      → Holds
          (λ _ store. Dispatched name entry v failure (view store name))
          (λ store. Moved v (view store name))
          (concluded calls entry failure s)
  unfolding concluded Released released_view
  concluded-Dispatched v (some text) s h = pure-Holds _ _ tt s h
  concluded-Dispatched v none s h =
      bind-Holds (λ _ store. Dispatched name entry v none (view store name)) _ _ _ _ s
        (Holds-weaken _ _ _ _ _ (λ _ store. ended h store) (kept h) (unlinks s))
        (λ _ s' h'. tell-Holds _ _ _ _ s' h')
    where
      ended :
          Linked name entry v (view s.store name)
          → (store : Store) → Released name entry (view s.store name) (view store name)
          → Dispatched name entry v none (view store name)
      ended (inl (d, e)) store r = inl (d, r.0 d ∙ e)
      ended (inr (f, t, same, e, e')) store r = inr (f, t, same, e, r.1 same ∙ ap released_view e')

      kept :
          Linked name entry v (view s.store name)
          → (store : Store) → view store name ≡ view s.store name
          → Moved v (view store name)
      kept (inl (d, e)) store k = inl (k ∙ e)
      kept (inr (f, t, same, e, e')) store k = inr (f, t, e, ap archive_of (k ∙ e'))

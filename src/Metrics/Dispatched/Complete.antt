-- ===== src/Metrics/Dispatched/Complete.antt =====
-- The whole of dispatch_entries, for one name.
use pyntara.Shared.{
  ◌≡◌, refl, sym, ap, subst, ◌∙◌, ◌⊎◌, inl, inr, Bool, true, false, ◌||◌, Option, none, some, List,
  [], ◌∷◌, ◌==◌, ==-cases, ==-same, contains, nat_eq, list_eq, arith, Bool-cases,
}
use pyntara.Text.{Text, text_le, insert_sorted, sorted}
use pyntara.Effects.{ok}
use pyntara.Metrics.Store.{Directory, File, Files, Store, main_outbox, names, find, at}
use pyntara.Metrics.Machine.{Calls, State, mkdir, iterdir}
use pyntara.Metrics.Stages.{seen, view}
use pyntara.Metrics.Rule.{Holds, Holds-weaken, perform-Holds, pure-Holds, bind-Holds, try-Holds}
use pyntara.Metrics.Dispatch.{
  dispatch_all, prepare_directories, dispatch_prepared, dispatch_to, dispatch_entries, channels,
}
use pyntara.Metrics.Dispatched.Linking.{Moved}
use pyntara.Metrics.Dispatched.Loops.{Through, dispatch_all-Ended}

abbrev is_present : Option File → Bool
is_present none = false
is_present (some f) = true

contains-insert_sorted :
    (name s : Text) (ts : List Text)
    → contains (insert_sorted s ts) name ≡ (name == s || contains ts name)
unfolding insert_sorted
contains-insert_sorted name s [] = refl
contains-insert_sorted name s (t ∷ ts) =
    let ih = contains-insert_sorted name s ts in
    elim (Bool-cases (text_le s t)) [ inl le ↦ rw le refl | inr gt ↦ rw gt (ground (arith, ih)) ]

pub contains-sorted : (name : Text) (ts : List Text) → contains (sorted ts) name ≡ contains ts name
unfolding sorted
contains-sorted name [] = refl
contains-sorted name (t ∷ ts) =
    contains-insert_sorted name t (sorted ts) ∙ ap (λ b. name == t || b) (contains-sorted name ts)

pub contains-names :
    (name : Text) (files : Files) → contains (names files) name ≡ is_present (find name files)
unfolding find
contains-names name [] = refl
contains-names name ((n, f) ∷ files) =
    let ih = contains-names name files in
    elim (Bool-cases (contains (names files) n)) [
      | inl known ↦ rw known (elim (==-cases name n) [
        | inl e ↦ rw (==-same e) (ap (contains (names files)) e ∙ known)
        | inr d ↦ rw d ih
      ])
      | inr new ↦ rw new (elim (Bool-cases (name == n)) [ inl e ↦ rw e refl | inr d ↦ rw d ih ])
    ]

-- Any number of directories can be made or not; none of what stands in them changes.
module _ {W : Type 0} (calls : Calls W) where
  prepare_directories-stays :
      (directories : List Directory) (s : State W)
      → Holds
          (λ _ store. store ≡ s.store)
          (λ store. store ≡ s.store)
          (prepare_directories calls directories s)
  unfolding prepare_directories mkdir
  prepare_directories-stays [] s = pure-Holds _ _ none s refl
  prepare_directories-stays (d ∷ directories) s =
      try-Holds (λ _ store. store ≡ s.store) (λ store. store ≡ s.store) _ _ _ _ s
        (perform-Holds _ _ calls _ _ s refl refl)
        (λ _ s' h.
          Holds-weaken _ _ _ _ _ (λ _ _ k. k ∙ h) (λ _ k. k ∙ h)
            (prepare_directories-stays directories s'))
        (λ text s' h. pure-Holds _ _ _ s' h)

  iterdir-names :
      (d : Directory) (s : State W)
      → Holds
          (λ found store. (found ≡ names (s.store d)) × (store ≡ s.store))
          (λ store. store ≡ s.store)
          (iterdir calls d s)
  unfolding iterdir
  iterdir-names d s = perform-Holds _ _ calls _ _ s refl (refl, refl)

  module _ (name : Text) where
    -- Dispatched without a problem, a name that waits has its place in the channel, and another
    -- keeps its view.
    abbrev pub Cleared : Store → Store → Type 0
    Cleared before after =
        ((at before main_outbox name ≡ none) × (view after name ≡ view before name))
        ⊎ ((f : File) × (t : Option File) × (view before name ≡ seen (some f) none t)
            × (view after name ≡ seen none (some f) t))

    abbrev pub Outcome : Store → Option Text → Store → Type 0
    Outcome before problem after =
        Moved (view before name) (view after name) × (problem ≡ none → Cleared before after)

    not_listed :
        (store : Store)
        → contains (sorted (names (store main_outbox))) name ≡ false
        → at store main_outbox name ≡ none
    unfolding at
    not_listed store h = go (find name (store main_outbox)) refl
      where
        go :
            (found : Option File)
            → find name (store main_outbox) ≡ found
            → find name (store main_outbox) ≡ none
        go none e = e
        go (some f) e = absurd (
            cc (
              sym (contains-sorted name (names (store main_outbox))) ∙ h,
              contains-names name (store main_outbox) ∙ ap is_present e,
            ))

    cleared :
        (before after : Store)
        → Through name (sorted (names (before main_outbox))) (view before name) (view after name)
        → Cleared before after
    cleared before after (inl (out, e)) = inl (not_listed before out, e)
    cleared before after (inr through) = inr through

    listed-Outcome :
        (s : State W)
        → Holds
            (Outcome s.store)
            (λ store. Moved (view s.store name) (view store name))
            (dispatch_prepared calls channels none s)
    unfolding dispatch_prepared
    listed-Outcome s =
        try-Holds _ _ _ _ _ _ s (iterdir-names main_outbox s)
          (λ found s' h.
            subst
              (λ store.
                Holds (Outcome store) (λ store'. Moved (view store name) (view store' name))
                  (dispatch_all calls channels none (sorted found) s'))
              h.1
              (Holds-weaken _ _ _ _ _
                (λ problem store ended. (
                  ended.0,
                  λ clean. cleared s'.store store (
                      subst
                        (λ found'.
                          Through name (sorted found') (view s'.store name) (view store name))
                        (h.0 ∙ ap (λ (store' : Store). names (store' main_outbox)) (sym h.1))
                        (ended.1 clean).1),
                ))
                (λ _ m. m) (dispatch_all-Ended name calls none (sorted found) s')))
          (λ text s' h.
            pure-Holds _ _ _ s' (inl (ap (λ (store : Store). view store name) h), λ e. absurd (cc)))

    pub dispatch_entries-Outcome :
        (s : State W)
        → Holds
            (Outcome s.store)
            (λ store. Moved (view s.store name) (view store name))
            (dispatch_entries calls s)
    unfolding dispatch_to dispatch_prepared
    dispatch_entries-Outcome s =
        bind-Holds _ _ _ _ _ s
          (Holds-weaken _ _ _ _ _ (λ _ _ h. h) (λ store h. inl (ap (λ (x : Store). view x name) h))
            (prepare_directories-stays _ s))
          (λ problem s' h. go problem s' h)
      where
        go :
            (problem : Option Text) (s' : State W)
            → s'.store ≡ s.store
            → Holds
                (Outcome s.store)
                (λ store. Moved (view s.store name) (view store name))
                (dispatch_prepared calls channels problem s')
        go none s' h =
            subst
              (λ store.
                Holds (Outcome store) (λ store'. Moved (view store name) (view store' name))
                  (dispatch_prepared calls channels none s'))
              h (listed-Outcome s')
        go (some problem) s' h =
            pure-Holds _ _ _ s' (inl (ap (λ (x : Store). view x name) h), λ e. absurd (cc))

    -- When dispatch_entries reports no problem, then every name that was in the outbox is in the
    -- channel and no more in the outbox, its place in the channel was free, and its place in the
    -- archive is as before; and a name that was not in the outbox stands where it stood.
    pub dispatch_entries-clear :
        (s s' : State W)
        → dispatch_entries calls s ≡ (ok none, s')
        → ((at s.store main_outbox name ≡ none) × (view s'.store name ≡ view s.store name))
          ⊎ ((f : File) × (t : Option File) × (view s.store name ≡ seen (some f) none t)
              × (view s'.store name ≡ seen none (some f) t))
    unfolding Holds
    dispatch_entries-clear s s' h =
        (subst (Holds (Outcome s.store) (λ store. Moved (view s.store name) (view store name))) h
            (dispatch_entries-Outcome s)).1
          refl

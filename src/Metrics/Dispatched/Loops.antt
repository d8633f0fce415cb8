-- ===== src/Metrics/Dispatched/Loops.antt =====
-- The loop of dispatch_entries over the entries of the outbox.
use pyntara.Shared.{
  ◌≡◌, refl, sym, ap, ◌∙◌, ◌⊎◌, inl, inr, false, Option, none, some, List, [], ◌∷◌, contains,
  nat_eq, list_eq, arith,
}
use pyntara.Text.{Text}
use pyntara.Metrics.Store.{File}
use pyntara.Metrics.Machine.{Calls, State}
use pyntara.Metrics.Stages.{View, seen, view, archive_of}
use pyntara.Metrics.Rule.{Holds, Holds-weaken, pure-Holds, bind-Holds}
use pyntara.Metrics.Dispatch.{dispatch_all, channels, joined_problem}
use pyntara.Metrics.Dispatched.Linking.{Moved, Dispatched, link_all-Tried, concluded-Dispatched}

-- Behind a loop without a failure: an entry that was in the list has been dispatched, and another
-- name keeps its view.
abbrev pub Through : Text → List Text → View → View → Type 0
Through name entries v w =
    ((contains entries name ≡ false) × (w ≡ v))
    ⊎ ((f : File) × (t : Option File) × (v ≡ seen (some f) none t) × (w ≡ seen none (some f) t))

-- The same with what is known when there was one.
abbrev pub Ended : Text → List Text → (before : Option Text) → View → Option Text → View → Type 0
Ended name entries before v problem w =
    Moved v w × (problem ≡ none → (before ≡ none) × Through name entries v w)

joined_none :
    (problem failure : Option Text)
    → joined_problem problem failure ≡ none
    → (problem ≡ none) × (failure ≡ none)
joined_none none none h = (refl, refl)
joined_none none (some text) h = absurd (cc)
joined_none (some p) none h = absurd (cc)
joined_none (some p) (some text) h = absurd (cc)

module _ (name : Text) where
  then-Moved :
      (entry : Text) (v u : View) (failure : Option Text)
      → Dispatched name entry v failure u
      → (w : View) → Moved u w
      → Moved v w
  then-Moved entry v u (some text) e w (inl k) = inl (k ∙ e)
  then-Moved entry v u (some text) e w (inr (f, t, k, k')) = inr (f, t, sym e ∙ k, k')
  then-Moved entry v u none (inl (d, e)) w (inl k) = inl (k ∙ e)
  then-Moved entry v u none (inl (d, e)) w (inr (f, t, k, k')) = inr (f, t, sym e ∙ k, k')
  then-Moved entry v u none (inr (f, t, same, e, e')) w (inl k) =
      inr (f, t, e, ap archive_of (k ∙ e'))
  then-Moved entry v u none (inr (f, t, same, e, e')) w (inr (f', t', k, k')) = absurd (cc)

  then-Through :
      (entry : Text) (entries : List Text) (v u w : View)
      → Dispatched name entry v none u
      → Through name entries u w
      → Through name (entry ∷ entries) v w
  then-Through entry entries v u w (inl (d, e)) (inl (out, k)) = inl (ground arith, k ∙ e)
  then-Through entry entries v u w (inl (d, e)) (inr (f, t, k, k')) = inr (f, t, sym e ∙ k, k')
  then-Through entry entries v u w (inr (f, t, same, e, e')) (inl (out, k)) = inr (f, t, e, k ∙ e')
  then-Through entry entries v u w (inr (f, t, same, e, e')) (inr (f', t', k, k')) = absurd (cc)

  failed-none :
      {entry : Text} {v u : View} (failure : Option Text)
      → failure ≡ none
      → Dispatched name entry v failure u
      → Dispatched name entry v none u
  failed-none none e d = d
  failed-none (some text) e d = absurd (cc)

  module _ {W : Type 0} (calls : Calls W) where
    pub dispatch_all-Ended :
        (before : Option Text) (entries : List Text) (s : State W)
        → Holds
            (λ problem store.
              Ended name entries before (view s.store name) problem (view store name))
            (λ store. Moved (view s.store name) (view store name))
            (dispatch_all calls channels before entries s)
    unfolding dispatch_all
    dispatch_all-Ended before [] s = pure-Holds _ _ before s (inl refl, λ h. (h, inl (refl, refl)))
    dispatch_all-Ended before (entry ∷ entries) s =
        bind-Holds _ _ _ _ _ s
          (Holds-weaken _ _ _ _ _ (λ _ _ h. h) (λ _ h. inl h) (link_all-Tried calls name entry s))
          (λ failure s' tried.
            bind-Holds _ _ _ _ _ s'
              (concluded-Dispatched calls name entry (view s.store name) failure s' tried)
              (λ _ s'' done.
                Holds-weaken _ _ _ _ _
                  (λ problem store ended. (
                    then-Moved entry _ _ failure done _ ended.0,
                    λ h.
                        let (both, through) = ended.1 h in
                        let (first, clean) = joined_none before failure both in
                        (
                          first,
                          then-Through entry entries _ _ _ (failed-none failure clean done) through,
                        ),
                  ))
                  (λ store m. then-Moved entry _ _ failure done _ m)
                  (dispatch_all-Ended (joined_problem before failure) entries s'')))

-- ===== src/Metrics/Stuck.antt =====
-- A name that stands in the outbox and in the channel at once, as after a crash between the link
-- and the unlink of dispatch_entries, holds up the whole queue.
use pyntara.Shared.{
  ℕ, zero, suc, ◌≡◌, ◌≢◌, refl, sym, ap, ◌∙◌, inl, inr, Bool, Option, none, some, ◌==◌, nat_eq,
  list_eq, option_eq,
}
use pyntara.Text.{Text}
use pyntara.Effects.{Answer, ok, raised}
use pyntara.Metrics.Store.{File, Store, main_sent, at}
use pyntara.Metrics.Machine.{Calls, State}
use pyntara.Metrics.Stages.{seen, view, archive_of}
use pyntara.Metrics.Rule.{
  Holds, Holds-weaken, Holds-both, pure-Holds, ask-Holds, if-Holds, tell-Holds, bind-Holds,
  try-Holds,
}
use pyntara.Metrics.Dispatch.{dispatch_entries}
use pyntara.Metrics.Dispatched.Linking.{Moved}
use pyntara.Metrics.Dispatched.Complete.{Cleared, dispatch_entries-Outcome}
use pyntara.Metrics.Loop.{Loop, send_unless, try_cycle, dispatch_and_send, report, cycle, cycles}

module _ (name other : Text) (f g : File) (t archive : Option File) where
  -- The name is in both, and the archive has this under the other name.
  abbrev pub IsBlocked : Store → Type 0
  IsBlocked store =
      (view store name ≡ seen (some f) (some g) t) × (at store main_sent other ≡ archive)

  module _ {W : Type 0} (calls : Calls W) where
    dispatching-IsBlocked :
        (s : State W)
        → IsBlocked s.store
        → Holds
            (λ problem store. IsBlocked store × (problem ≢ none))
            IsBlocked
            (dispatch_entries calls s)
    dispatching-IsBlocked s (v, a) =
        Holds-weaken _ _ _ _ _
          (λ problem store o.
            ((same store o.0.0, archived store o.1.0), λ clean. uncleared store (o.0.1 clean)))
          (λ store o. (same store o.0, archived store o.1))
          (Holds-both _ _ _ _ _ (dispatch_entries-Outcome calls name s)
            (dispatch_entries-Outcome calls other s))
      where
        same :
            (store : Store)
            → Moved (view s.store name) (view store name)
            → view store name ≡ seen (some f) (some g) t
        same store (inl e) = e ∙ v
        same store (inr (f', t', e, k)) = absurd (cc)

        archived :
            (store : Store)
            → Moved (view s.store other) (view store other)
            → at store main_sent other ≡ archive
        archived store (inl e) = ap archive_of e ∙ a
        archived store (inr (f', t', e, k)) = k ∙ sym (ap archive_of e) ∙ a

        uncleared : (store : Store) → Cleared calls name s.store store → ⊥
        uncleared store (inl (out, e)) = absurd (cc)
        uncleared store (inr (f', t', e, k)) = absurd (cc)

    send_unless-IsBlocked :
        (single_random : Bool) (problem : Option Text) (s : State W)
        → IsBlocked s.store
        → problem ≢ none
        → Holds (λ _. IsBlocked) IsBlocked (send_unless calls single_random problem s)
    send_unless-IsBlocked single_random none s h clean = absurd (clean refl)
    send_unless-IsBlocked single_random (some problem) s h clean = pure-Holds _ _ _ s h

    dispatch_and_send-IsBlocked :
        (single_random : Bool) (s : State W)
        → IsBlocked s.store
        → Holds (λ _. IsBlocked) IsBlocked (dispatch_and_send calls single_random s)
    unfolding dispatch_and_send try_cycle
    dispatch_and_send-IsBlocked single_random s h =
        try-Holds (λ _. IsBlocked) IsBlocked _ _ _ _ s
          (bind-Holds _ _ _ _ _ s (dispatching-IsBlocked s h)
            (λ problem s' k. send_unless-IsBlocked single_random problem s' k.0 k.1))
          (λ o s' k. pure-Holds _ _ o s' k) (λ text s' k. pure-Holds _ _ _ s' k)

    report-IsBlocked :
        (last_problem problem : Option Text) (s : State W)
        → IsBlocked s.store
        → Holds (λ _. IsBlocked) IsBlocked (report calls last_problem problem s)
    unfolding report
    report-IsBlocked last_problem none s h =
        if-Holds _ _ (last_problem == none) _ _ s (pure-Holds _ _ tt s h) (tell-Holds _ _ _ _ s h)
    report-IsBlocked last_problem (some problem) s h =
        if-Holds _ _ (last_problem == some problem) _ _ s (pure-Holds _ _ tt s h)
          (tell-Holds _ _ _ _ s h)

    cycle-IsBlocked :
        (loop : Loop) (s : State W)
        → IsBlocked s.store
        → Holds (λ _. IsBlocked) IsBlocked (cycle calls loop s)
    unfolding cycle
    cycle-IsBlocked loop s h =
        bind-Holds _ _ _ _ _ s (dispatch_and_send-IsBlocked _ s h) (λ o s' h'.
          bind-Holds _ _ _ _ _ s' (report-IsBlocked _ _ s' h') (λ _ s'' h''.
            bind-Holds (λ _. IsBlocked) _ _ _ _ s'' (ask-Holds _ _ _ s'' (λ _. h''))
              (λ _ s3 h3. pure-Holds _ _ _ s3 h3)))

    cycles-IsBlocked :
        (n : ℕ) (loop : Loop) (s : State W)
        → IsBlocked s.store
        → Holds (λ _. IsBlocked) IsBlocked (cycles calls n loop s)
    unfolding cycles
    cycles-IsBlocked zero loop s h = pure-Holds _ _ loop s h
    cycles-IsBlocked (suc n) loop s h =
        bind-Holds _ _ _ _ _ s (cycle-IsBlocked loop s h)
          (λ loop' s' h'. cycles-IsBlocked n loop' s' h')

ending :
    {W A : Type 0} (P : Store → Type 0) (r : Answer A × State W) → Holds (λ _. P) P r → P r.1.store
unfolding Holds
ending P (ok a, s) h = h
ending P (raised text, s) h = h

-- While a name stands in the outbox and in the channel at once, no number of cycles of the
-- service, from any state of its loop, takes it out of either or brings a file of any name into
-- the archive, whatever calls are refused or raise.
pub cycles-stuck :
    {W : Type 0} (calls : Calls W) (n : ℕ) (loop : Loop) (s : State W) (name other : Text)
    (f g : File) (t : Option File)
    → view s.store name ≡ seen (some f) (some g) t
    → (view (cycles calls n loop s).1.store name ≡ view s.store name)
      × (at (cycles calls n loop s).1.store main_sent other ≡ at s.store main_sent other)
cycles-stuck calls n loop s name other f g t h =
    let stuck =
      ending (IsBlocked name other f g t (at s.store main_sent other)) (cycles calls n loop s)
        (cycles-IsBlocked name other f g t _ calls n loop s (h, refl)) in
    (stuck.0 ∙ sym h, stuck.1)

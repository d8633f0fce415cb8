-- ===== src/Metrics/Refined/Service.antt =====
-- The service moves the files along the steps of Stages, in every number of cycles.
use pyntara.Shared.{
  ℕ, zero, suc, ◌≡◌, ap, ◌∙◌, ◌↔◌, inl, inr, ltb, Bool, Option, none, some, ◌++◌, ◌==◌, nat_eq,
  list_eq, option_eq,
}
use pyntara.Text.{Text, codes}
use pyntara.Effects.{Answer, ok, raised}
use pyntara.Metrics.Store.{File, main_outbox, at}
use pyntara.Metrics.Machine.{Calls, State, Action, pure, attempt, ask, followed_by, ◌>>=◌}
use pyntara.Metrics.Dispatch.{dispatch_entries}
use pyntara.Metrics.Dispatched.Complete.{dispatch_entries-clear}
use pyntara.Metrics.Send.{ChannelOutcome, outcome}
use pyntara.Metrics.Stages.{
  view, here, ◌⟶*◌, ⟶*-trans, waiting_of, ⟶*-no_waiting, IsHeld, IsPast, IsAgreed, IsArchived,
  ⟶*-IsKept,
}
use pyntara.Metrics.Loop.{
  Loop, pause_after, send_unless, try_cycle, dispatch_and_send, report, cycle, cycles,
}
use pyntara.Metrics.Refined.{
  Anywhere, Preserves, reached, pure-Preserves, ask-Preserves, tell-Preserves, bind-Preserves,
  try-Preserves,
}
use pyntara.Metrics.Refined.Dispatching.{dispatch_entries-Preserves}
use pyntara.Metrics.Refined.Sending.{send_google_queue-Preserves, if-Preserves}

module _ {W : Type 0} (calls : Calls W) where
  send_unless-Preserves :
      (single_random : Bool) (problem : Option Text)
      → Preserves (send_unless calls single_random problem)
  send_unless-Preserves single_random none = send_google_queue-Preserves calls single_random
  send_unless-Preserves single_random (some problem) = pure-Preserves _

  try_cycle-Preserves : (single_random : Bool) → Preserves (try_cycle calls single_random)
  unfolding try_cycle
  try_cycle-Preserves single_random =
      bind-Preserves _ _ (dispatch_entries-Preserves calls) (send_unless-Preserves single_random)

  dispatch_and_send-Preserves :
      (single_random : Bool) → Preserves (dispatch_and_send calls single_random)
  unfolding dispatch_and_send
  dispatch_and_send-Preserves single_random =
      try-Preserves _ _ (try_cycle-Preserves single_random) pure-Preserves
        (λ text. pure-Preserves _)

  report-Preserves :
      (last_problem problem : Option Text) → Preserves (report calls last_problem problem)
  unfolding report
  report-Preserves last_problem none =
      if-Preserves (last_problem == none) _ _ (pure-Preserves tt) (tell-Preserves _ _)
  report-Preserves last_problem (some problem) =
      if-Preserves (last_problem == some problem) _ _ (pure-Preserves tt) (tell-Preserves _ _)

  -- What a cycle does behind the sending.
  abbrev closing : Loop → ChannelOutcome → Action W Loop
  closing loop o = do
    _ ← report calls loop.last_problem o.problem
    let (failed_cycles, pause) = pause_after loop.failed_cycles o
    _ ← ask (λ w. (tt, calls.sleep pause w))
    pure (record { failed_cycles = failed_cycles; last_problem = o.problem })

  closing-Preserves : (loop : Loop) (o : ChannelOutcome) → Preserves (closing loop o)
  closing-Preserves loop o =
      bind-Preserves _ _ (report-Preserves _ _)
        (λ _. bind-Preserves _ _ (ask-Preserves _) (λ _. pure-Preserves _))

  cycle-Preserves : (loop : Loop) → Preserves (cycle calls loop)
  unfolding cycle
  cycle-Preserves loop = bind-Preserves _ _ (dispatch_and_send-Preserves _) (closing-Preserves loop)

  cycles-Preserves : (n : ℕ) (loop : Loop) → Preserves (cycles calls n loop)
  unfolding cycles
  cycles-Preserves zero loop = pure-Preserves loop
  cycles-Preserves (suc n) loop = bind-Preserves _ _ (cycle-Preserves loop) (cycles-Preserves n)

  module _ (n : ℕ) (loop : Loop) (s : State W) (name : Text) where
    cycles-steps : view s.store name ⟶* view (cycles calls n loop s).1.store name
    cycles-steps = reached Anywhere s (cycles calls n loop s) (cycles-Preserves n loop s) name

    -- No cycles of the service lose a file or make one up: when the name stands for one file
    -- wherever it stands in the outbox, the channel and the archive, then the same files are
    -- in one of the three afterwards as before, whatever calls are refused or raise.
    pub cycles-keep :
        (f : File)
        → IsAgreed (view s.store name)
        → IsHeld f (view s.store name) ↔ IsHeld f (view (cycles calls n loop s).1.store name)
    cycles-keep f agreed = (⟶*-IsKept cycles-steps agreed).keeps f

    -- A file of the archive stays there through every number of cycles, when its name stands for
    -- one file wherever it stands.
    pub cycles-archive :
        (f : File)
        → IsAgreed (view s.store name)
        → IsArchived f (view s.store name)
        → IsArchived f (view (cycles calls n loop s).1.store name)
    cycles-archive f agreed = (⟶*-IsKept cycles-steps agreed).archive f

  -- What a program that follows another does.
  bind-steps :
      {A B : Type 0} (m : Action W A) (f : A → Action W B)
      → ((a : A) → Preserves (f a))
      → (s : State W) (name : Text) → view (m s).1.store name ⟶* view ((m >>= f) s).1.store name
  unfolding ◌>>=◌
  bind-steps m f k s name = go (m s)
    where
      go :
          (r : Answer _ × State W)
          → view r.1.store name ⟶* view (followed_by r.0 f r.1).1.store name
      go (ok a, t) = reached Anywhere t (f a t) (k a t) name
      go (raised text, t) = here

  abbrev failed_with : Text → ChannelOutcome
  failed_with text = outcome 0 0 (some (codes "the System Metrics cycle failed: " ++ text))

  abbrev outcome_of : Answer ChannelOutcome → Action W ChannelOutcome
  outcome_of answer = elim answer [ ok o ↦ pure o | raised text ↦ pure (failed_with text) ]

  module _ (n : ℕ) (loop : Loop) (s s' : State W) (name : Text)
      (clear : dispatch_entries calls s ≡ (ok none, s')) where
    -- The state behind the dispatch and the sending of a cycle that is dispatched without a problem.
    sending-steps :
        (single_random : Bool)
        → view s'.store name ⟶* view (dispatch_and_send calls single_random s).1.store name
    unfolding dispatch_and_send try_cycle attempt ◌>>=◌
    sending-steps single_random = rw clear (
        reached Anywhere s' ((attempt (send_unless calls single_random none) >>= outcome_of) s')
          (try-Preserves (send_unless calls single_random none) outcome_of
            (send_unless-Preserves single_random none) pure-Preserves
            (λ text. pure-Preserves (failed_with text)) s')
          name)

    cycle-steps : view s'.store name ⟶* view (cycles calls (suc n) loop s).1.store name
    unfolding cycle cycles
    cycle-steps = ⟶*-trans (sending-steps (ltb 0 loop.failed_cycles)) (
        ⟶*-trans
          (bind-steps (dispatch_and_send calls (ltb 0 loop.failed_cycles)) (λ o. closing loop o)
            (closing-Preserves loop) s name)
          (bind-steps (cycle calls loop) (cycles calls n) (cycles-Preserves n) s name))

    out_of_outbox : at (cycles calls (suc n) loop s).1.store main_outbox name ≡ none
    out_of_outbox = ⟶*-no_waiting cycle-steps (elim (dispatch_entries-clear calls name s s' clear) [
      | inl (free, same) ↦ ap waiting_of same ∙ free
      | inr (f, t, was, is) ↦ ap waiting_of is
    ])

    -- When the service starts from a dispatch that reports no problem, then after the cycle of it
    -- and any number of further cycles, whatever calls of the sender and of those cycles are
    -- refused or raise, the directories have moved along the steps that the queue promises for
    -- every name (linked into the channel while it waits in the outbox, then out of the outbox,
    -- then from the channel into the archive), nothing waits under the name in the outbox, and
    -- when the name stood for one file wherever it stood, then the files that stood under it in
    -- any of the three directories are exactly those that are in the channel or the archive.
    pub cycles-refines :
        IsAgreed (view s.store name)
        → (view s.store name ⟶* view (cycles calls (suc n) loop s).1.store name)
          × (at (cycles calls (suc n) loop s).1.store main_outbox name ≡ none)
          × ((f : File)
              → IsHeld f (view s.store name)
                ↔ IsPast f (view (cycles calls (suc n) loop s).1.store name))
    cycles-refines agreed = (
      cycles-steps (suc n) loop s name,
      out_of_outbox,
      λ f.
          let (on, back) = cycles-keep (suc n) loop s name f agreed in
          (λ h. past_of f (on h), λ h. back (inr h)),
    )
      where
        past_of :
            (f : File)
            → IsHeld f (view (cycles calls (suc n) loop s).1.store name)
            → IsPast f (view (cycles calls (suc n) loop s).1.store name)
        past_of f (inl e) = absurd (cc (e, out_of_outbox))
        past_of f (inr h) = h

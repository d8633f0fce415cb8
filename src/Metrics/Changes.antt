-- ===== src/Metrics/Changes.antt =====
-- What the loop of the service writes about a problem.
use pyntara.Shared.{
  ◌≡◌, ◌≢◌, refl, ◌⊎◌, inl, inr, Bool, Option, none, some, [], ◌∷◌, ◌++◌, ltb, ==-cases, ==-same,
  ==-differ, nat_eq, list_eq, option_eq,
}
use pyntara.Text.{Text, codes}
use pyntara.Effects.{Answer, ok, raised}
use pyntara.Metrics.Store.{Store}
use pyntara.Metrics.Rule.{Holds, pure-Holds, try-Holds}
use pyntara.Metrics.Machine.{Calls, JournalLine, State, pure, ask, tell, ◌>>=◌}
use pyntara.Metrics.Entries.{error_priority}
use pyntara.Metrics.Send.{ChannelOutcome}
use pyntara.Metrics.Loop.{Loop, try_cycle, dispatch_and_send, report, cycle, pause_after}

never_raised :
    {W A : Type 0} (P : A → Store → Type 0) (r : Answer A × State W)
    → Holds P (λ _. ⊥) r
    → (a : A) × (r.0 ≡ ok a)
unfolding Holds
never_raised P (ok a, s) h = (a, refl)
never_raised P (raised text, s) h = absurd h

-- The line about a problem that was not there before, or about the end of one.
abbrev pub line_about : Option Text → JournalLine
line_about none = record {
  text = codes "the missing System Metrics support is available again";
  priority = none;
}
line_about (some problem) = record { text = problem; priority = error_priority }

module _ {W : Type 0} (calls : Calls W) where
  -- The cycle never raises: a broken one is an outcome with a problem.
  dispatch_and_send-ok :
      (single_random : Bool) (s : State W)
      → (o : ChannelOutcome) × ((dispatch_and_send calls single_random s).0 ≡ ok o)
  unfolding dispatch_and_send Holds
  dispatch_and_send-ok single_random s = never_raised Anyhow _ (
      try-Holds Anyhow (λ _. Unit) _ _ _ _ s (anyhow (try_cycle calls single_random s))
        (λ o s' _. pure-Holds _ _ o s' tt) (λ text s' _. pure-Holds _ _ _ s' tt))
    where
      Anyhow : ChannelOutcome → Store → Type 0
      Anyhow o store = Unit

      anyhow : (r : Answer ChannelOutcome × State W) → Holds Anyhow (λ _. Unit) r
      anyhow (ok o, s') = tt
      anyhow (raised text, s') = tt

  -- What a report adds to the journal.
  abbrev Adds : (last_problem problem : Option Text) → State W → State W → Type 0
  Adds last_problem problem before after =
      ((last_problem ≡ problem) × (after.journal ≡ before.journal))
      ⊎ ((last_problem ≢ problem) × (after.journal ≡ before.journal ++ line_about problem ∷ []))

  report-Adds :
      (last_problem problem : Option Text) (s : State W)
      → ((report calls last_problem problem s).0 ≡ ok tt)
        × Adds last_problem problem s (report calls last_problem problem s).1
  unfolding report pure tell
  report-Adds last_problem none s = elim (==-cases last_problem none) [
    | inl e ↦ rw (==-same e) (refl, inl (e, refl))
    | inr d ↦ rw d (refl, inr (λ e. ==-differ e d, refl))
  ]
  report-Adds last_problem (some problem) s = elim (==-cases last_problem (some problem)) [
    | inl e ↦ rw (==-same e) (refl, inl (e, refl))
    | inr d ↦ rw d (refl, inr (λ e. ==-differ e d, refl))
  ]

  -- The loop writes about a problem once for each change: behind the lines of the dispatch and of
  -- the senders, a cycle adds none when its problem is that of the cycle before, and otherwise
  -- one, the problem itself or that it is over. The problem is kept for the next cycle.
  pub cycle-changes :
      (loop : Loop) (s : State W)
      → (o : ChannelOutcome) × (loop' : Loop) × ((dispatch_and_send calls
            (ltb 0 loop.failed_cycles)
            s).0
          ≡ ok o)
        × ((cycle calls loop s).0 ≡ ok loop')
        × (loop'.last_problem ≡ o.problem)
        × (loop'.failed_cycles ≡ (pause_after loop.failed_cycles o).0)
        × Adds loop.last_problem o.problem
            (dispatch_and_send calls (ltb 0 loop.failed_cycles) s).1
            (cycle calls loop s).1
  unfolding cycle ◌>>=◌ ask pure
  cycle-changes loop s =
      let (o, e) = dispatch_and_send-ok (ltb 0 loop.failed_cycles) s in
      let (e', added) =
        report-Adds loop.last_problem o.problem
          (dispatch_and_send calls (ltb 0 loop.failed_cycles) s).1 in
      (o, _, e, rw (e) (rw e' refl), refl, refl, rw (e) (rw e' added))

-- ===== src/Forwarding/Accepted.antt =====
-- The port that a tunnel takes.
use pyntara.Shared.{
  ℕ, ◌≡◌, refl, sym, ap, subst, ◌∙◌, ◌⊎◌, inl, inr, Bool, true, false, Option, none, some, List, [],
  ◌∷◌, ◌++◌, append-nil, append_assoc, nat_eq, list_eq, option_eq,
}
use pyntara.Text.{Text, codes, decimal}
use pyntara.Effects.{Answer, ok, raised}
use pyntara.Programs.{pure, followed_by, ◌>>=◌}
use pyntara.Metrics.Machine.{JournalLine}
use pyntara.Metrics.Entries.{error_priority}
use pyntara.Forwarding.Tunnel.{
  Started, Tunnels, ForwardState, say, start, sleeping, backoff_base_seconds_of_forwarding, walk_on,
  accepted_or, open_tunnel,
}

module _ (server : Text) where
  -- The line about a port that is taken on the server.
  abbrev pub taken_line : ℕ → JournalLine
  taken_line port = record {
    text =
        server
        ++ (codes ": remote port "
            ++ (decimal port ++ (codes " is taken there, trying the next candidate")));
    priority = none;
  }

  abbrev pub taken_lines : List ℕ → List JournalLine
  taken_lines [] = []
  taken_lines (port ∷ ports) = taken_line port ∷ taken_lines ports

module _ {W : Type 0} (tunnels : Tunnels W) (server : Text) (local_port : ℕ) where
  -- The machine behind these candidates, each of which was asked for and followed by a pause.
  abbrev pub world_behind : List ℕ → W → W
  world_behind [] w = w
  world_behind (port ∷ ports) w =
      world_behind ports
        (tunnels.sleep backoff_base_seconds_of_forwarding (tunnels.start_forward server port w).1)

  abbrev pub IsTaken : Answer Started → Type 0
  IsTaken answer = (started : Started) × (answer ≡ ok started) × (started.busy ≡ true)

  -- The server answers each of these candidates, in this order, that it is taken.
  abbrev pub AllTaken : List ℕ → W → Type 0
  AllTaken [] w = Unit
  AllTaken (port ∷ ports) w =
      IsTaken (tunnels.start_forward server port w).0
      × AllTaken ports
          (tunnels.sleep backoff_base_seconds_of_forwarding (tunnels.start_forward server port w).1)

  -- Nothing but the machine and the journal has changed.
  abbrev pub Writes : ForwardState W → ForwardState W → W → List JournalLine → Type 0
  Writes s s' w lines =
      (s'.world ≡ w)
      × (s'.journal ≡ s.journal ++ lines)
      × (s'.state ≡ s.state)
      × (s'.saved ≡ s.saved)

  -- The candidates before `port` are taken, and the walk ends at it with this answer.
  abbrev pub EndsAt :
      List ℕ → ForwardState W → ForwardState W → ℕ → Answer Started → List JournalLine → Type 0
  EndsAt candidates s s' port answer lines =
      (before : List ℕ) × (after : List ℕ) × (candidates ≡ before ++ port ∷ after)
      × AllTaken before s.world
      × ((tunnels.start_forward server port (world_behind before s.world)).0 ≡ answer)
      × Writes s s' (tunnels.start_forward server port (world_behind before s.world)).1
          (taken_lines server before ++ lines)

  abbrev pub refused_line : Text → JournalLine
  refused_line text = record {
    text =
        server
        ++ (codes ": cannot connect for local " ++ (decimal local_port ++ (codes ": " ++ text)));
    priority = none;
  }

  abbrev pub exhausted_line : JournalLine
  exhausted_line = record {
    text = server ++ codes ": every port of the range is taken, no tunnel for this attempt";
    priority = error_priority;
  }

  -- A tunnel, no tunnel, and an exception of the start of ssh.
  abbrev pub Opens : List ℕ → ForwardState W → Answer (Option ℕ) × ForwardState W → Type 0
  Opens candidates s (ok (some port), s') =
      EndsAt candidates s s' port (ok (record { busy = false; error = none })) []
  Opens candidates s (ok none, s') =
      ((port : ℕ) × (text : Text) × EndsAt candidates s s' port
          (ok (record { busy = false; error = some text })) (refused_line text ∷ []))
      ⊎ (AllTaken candidates s.world
          × Writes s s' (world_behind candidates s.world)
              (taken_lines server candidates ++ exhausted_line ∷ []))
  Opens candidates s (raised text, s') = (port : ℕ) × EndsAt candidates s s' port (raised text) []

  -- The state behind one candidate that is taken.
  abbrev behind : ℕ → ForwardState W → ForwardState W
  behind port s = record s {
    world =
        tunnels.sleep backoff_base_seconds_of_forwarding
          (tunnels.start_forward server port s.world).1;
    journal = s.journal ++ taken_line server port ∷ [];
  }

  Writes-behind :
      (port : ℕ) (s s' : ForwardState W) (w : W) (lines : List JournalLine)
      → Writes (behind port s) s' w lines
      → Writes s s' w (taken_line server port ∷ lines)
  Writes-behind port s s' w lines (e, j, k, l) =
      (e, j ∙ append_assoc s.journal (taken_line server port ∷ []) lines, k, l)

  EndsAt-behind :
      (first : ℕ) (candidates : List ℕ) (s s' : ForwardState W) (port : ℕ) (answer : Answer Started)
      (lines : List JournalLine)
      → IsTaken (tunnels.start_forward server first s.world).0
      → EndsAt candidates (behind first s) s' port answer lines
      → EndsAt (first ∷ candidates) s s' port answer lines
  EndsAt-behind first candidates s s' port answer lines taken (before, after, c, t, a, w) = (
    first ∷ before,
    after,
    ap (λ l. first ∷ l) c,
    (taken, t),
    a,
    Writes-behind first s s' _ (taken_lines server before ++ lines) w,
  )

  Opens-behind :
      (first : ℕ) (candidates : List ℕ) (s : ForwardState W)
      (r : Answer (Option ℕ) × ForwardState W)
      → IsTaken (tunnels.start_forward server first s.world).0
      → Opens candidates (behind first s) r
      → Opens (first ∷ candidates) s r
  Opens-behind first candidates s (ok (some port), s') taken e =
      EndsAt-behind first candidates s s' port _ [] taken e
  Opens-behind first candidates s (ok none, s') taken (inl (port, text, e)) =
      inl (port, text, EndsAt-behind first candidates s s' port _ _ taken e)
  Opens-behind first candidates s (ok none, s') taken (inr (all_taken, w)) = inr (
    (taken, all_taken),
    Writes-behind first s s' _ (taken_lines server candidates ++ exhausted_line ∷ []) w,
  )
  Opens-behind first candidates s (raised text, s') taken (port, e) =
      (port, EndsAt-behind first candidates s s' port _ [] taken e)

  -- A tunnel of _open_tunnel takes the first candidate that start_forward does not report as taken
  -- on the server, when that answer has no error; with another error of it, or when every
  -- candidate is taken, there is no tunnel; and an exception of start_forward ends the walk.
  -- Each candidate is asked for on the machine as the pause behind the one before left it. The
  -- journal gets one line for each candidate that is taken and one for why there is no tunnel,
  -- and the recorded ports and the state file stay as they are.
  pub open_tunnel-Opens :
      (candidates : List ℕ) (s : ForwardState W)
      → Opens candidates s (open_tunnel tunnels server local_port candidates s)
  unfolding open_tunnel walk_on accepted_or start say sleeping ◌>>=◌ pure
  open_tunnel-Opens [] s = inr (tt, (refl, refl, refl, refl))
  open_tunnel-Opens (port ∷ candidates) s =
      go (open_tunnel-Opens candidates) (tunnels.start_forward server port s.world) refl
    where
      Rest : Type 0
      Rest =
          (t : ForwardState W)
          → Opens candidates t (open_tunnel tunnels server local_port candidates t)

      on :
          Rest
          → (busy : Bool) (error : Option Text) (w : W)
          → tunnels.start_forward server port s.world
            ≡ (ok (record { busy = busy; error = error }), w)
          → Opens (port ∷ candidates) s (
              walk_on tunnels server local_port port
                (open_tunnel tunnels server local_port candidates)
                busy
                error
                (record s { world = w }))
      on ih true error w e =
          subst
            (λ w'. Opens (port ∷ candidates) s (
              open_tunnel tunnels server local_port candidates (record s {
                world = tunnels.sleep backoff_base_seconds_of_forwarding w';
                journal = s.journal ++ taken_line server port ∷ [];
              })))
            (ap (λ r. r.1) e)
            (Opens-behind port candidates s _ (_, ap (λ r. r.0) e, refl) (ih (behind port s)))
      on ih false none w e = (
        [],
        candidates,
        refl,
        tt,
        ap (λ r. r.0) e,
        (sym (ap (λ r. r.1) e), sym (append-nil s.journal), refl, refl),
      )
      on ih false (some text) w e = inl (
        port,
        text,
        ([], candidates, refl, tt, ap (λ r. r.0) e, (sym (ap (λ r. r.1) e), refl, refl, refl)),
      )

      go :
          Rest
          → (r : Answer Started × W) → tunnels.start_forward server port s.world ≡ r
          → Opens (port ∷ candidates) s (
              followed_by r.0
                (λ started.
                  walk_on tunnels server local_port port
                    (open_tunnel tunnels server local_port candidates)
                    started.busy
                    started.error)
                (record s { world = r.1 }))
      go ih (raised text, w) e = (
        port,
        (
          [],
          candidates,
          refl,
          tt,
          ap (λ r. r.0) e,
          (sym (ap (λ r. r.1) e), sym (append-nil s.journal), refl, refl),
        ),
      )
      go ih (ok started, w) e = on ih started.busy started.error w e

-- ===== src/Forwarding/Recorded.antt =====
-- What is recorded of the port of a tunnel.
use pyntara.Shared.{
  ℕ, ◌≡◌, ◌≢◌, ◌⊎◌, Bool, true, false, Option, none, some, [], ◌∷◌, ◌++◌, ◌==◌, nat_eq, list_eq,
  option_eq,
}
use pyntara.Text.{Text, codes, decimal}
use pyntara.Effects.{Answer, ok}
use pyntara.Forwarding.Integers.{pos, int_eq}
use pyntara.Forwarding.Tunnel.{Tunnels, ForwardState, recorded_port, with_port, state_file_path}

module _ {W : Type 0} (tunnels : Tunnels W) (server : Text) (local_port port : ℕ) where
  -- Where the port of another server or another local port is read.
  abbrev pub IsOther : Text → ℕ → Type 0
  IsOther other other_port =
      ((other == server) ≡ false)
      ⊎ ((other ≡ server) × ((decimal other_port == decimal local_port) ≡ false))

  -- The state behind a write of the recorded ports that the machine answers like this: with none,
  -- the file holds them; with an error, it holds what it held, and a line says so.
  abbrev pub written : ForwardState W → Option Text × W → ForwardState W
  written s (none, w) = record {
    world = w;
    state = with_port s.state server local_port port;
    saved = some (with_port s.state server local_port port);
    journal = s.journal;
  }
  written s (some text, w) = record {
    world = w;
    state = with_port s.state server local_port port;
    saved = s.saved;
    journal =
        s.journal
        ++ record {
          text =
              codes "cannot save the port-forwarding state "
              ++ (state_file_path ++ (codes ": " ++ text));
          priority = none;
        }
          ∷ [];
  }

  -- The recorded ports behind, and whether they changed and were written.
  abbrev pub Records : Text → ℕ → ForwardState W → Answer Bool × ForwardState W → Type 0
  Records other other_port s r =
      (recorded_port r.1.state server local_port ≡ some (pos port))
      × (recorded_port r.1.state other other_port ≡ recorded_port s.state other other_port)
      × (((recorded_port s.state server local_port ≡ some (pos port)) × (r ≡ (ok false, s)))
          ⊎ ((recorded_port s.state server local_port ≢ some (pos port))
              × (r ≡ (
                ok true,
                written s (tunnels.write_state (with_port s.state server local_port port) s.world),
              ))))

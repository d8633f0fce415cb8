-- ===== src/Forwarding/Samples.antt =====
-- A server on which the first port of the machine is taken, and the theorems at it.
use pyntara.Shared.{
  ℕ, List, ◌+◌, ◌≤◌, ◌≡◌, refl, ◌⊎◌, true, none, some, [], ◌∷◌, ◌++◌, All, length, contains, arith,
  ◌==◌, nat_eq, list_eq, option_eq,
}
use pyntara.Text.{Text, codes, decimal, strip, splitlines}
use pyntara.Effects.{ok}
use pyntara.Programs.{pure, attempt, ◌>>=◌}
use pyntara.Metrics.Backoff.{backoff_delay}
use pyntara.Forwarding.Integers.{ℤ, pos, negsuc, int_eq}
use pyntara.Forwarding.Ports.{desired_port, span, port_of_attempt, walk_ports, candidate_ports}
use pyntara.Forwarding.Tunnel.{
  Tunnels, ForwardState, value_at, with_value, filter_own_servers, server_addresses, last_of_lines,
  last_line, say, start, sleeping, waiting, collecting, save_state, accepted_or, walk_on,
  open_tunnel, record_port, backing_off, keep_tunnel, keep_opened, forward_once,
}
use pyntara.Forwarding.Chain.{AllDistinct, IsInRange, candidate_ports-chain}
use pyntara.Forwarding.Accepted.{Opens, open_tunnel-Opens}
use pyntara.Forwarding.Loaded.{integer, boolean, ports_object, other_entry, object, load_state}
use pyntara.Forwarding.Restored.{entries_of, load_state-entries_of}

program : Unit {0}
unfolding desired_port walk_ports candidate_ports value_at with_value filter_own_servers
    server_addresses last_of_lines last_line say start sleeping waiting collecting save_state
    accepted_or walk_on open_tunnel load_state record_port backing_off keep_tunnel keep_opened
    forward_once pure attempt ◌>>=◌ decimal strip splitlines backoff_delay nat_eq list_eq option_eq
    int_eq
program = tt

-- Each name is the number of its letters.
abbrev small_digest : Text → ℕ
small_digest = length

abbrev small_tunnels : Tunnels ℕ
small_tunnels = record {
  start_forward = λ server port w. (ok (record { busy = port == 32772; error = none }), w);
  wait_dropped = λ w. (9, w);
  write_state = λ state w. (none, w);
  trigger_collection = λ w. (ok tt, w);
  sleep = λ seconds w. seconds + w;
}

abbrev small_shared : ForwardState ℕ
small_shared = record {
  world = 0;
  state = (codes "b", (codes "22", pos 40000) ∷ []) ∷ [];
  saved = none;
  journal = [];
}

host_ports : candidate_ports small_digest (codes "host") 12 ≡ 32772 ∷ 32773 ∷ 32774 ∷ []
unfolding program
host_ports = refl

once : forward_once small_tunnels (codes "a") 22 (32772 ∷ 32773 ∷ []) 4 small_shared ≡ (
  ok 5,
  record small_shared {
    world = 34;
    state =
        (codes "b", (codes "22", pos 40000) ∷ []) ∷ (codes "a", (codes "22", pos 32773) ∷ []) ∷ [];
    saved = some (
        (codes "b", (codes "22", pos 40000) ∷ []) ∷ (codes "a", (codes "22", pos 32773) ∷ []) ∷ []);
    journal =
        record {
          text = codes "a: remote port 32772 is taken there, trying the next candidate";
          priority = none;
        }
        ∷ record {
          text = codes "a: forwarding local port 22 to remote port 32773";
          priority = none;
        }
        ∷ record { text = codes "a: connection to 32773 dropped, reconnecting"; priority = none }
        ∷ [];
  },
)
unfolding program
once = refl

last_line-ssh : last_line (codes "debug" ++ 10 ∷ codes " denied " ++ 10 ∷ 32 ∷ []) ≡ codes "denied"
unfolding program
last_line-ssh = refl

candidate_ports-chain_example :
    AllDistinct (candidate_ports small_digest (codes "host") 12)
    × All IsInRange (candidate_ports small_digest (codes "host") 12)
    × (length (candidate_ports small_digest (codes "host") 12) ≤ span)
    × ((contains
            (candidate_ports small_digest (codes "host") 12)
            (port_of_attempt small_digest (codes "host") 11)
          ≡ true)
        ⊎ (length (candidate_ports small_digest (codes "host") 12) ≡ span))
candidate_ports-chain_example =
    candidate_ports-chain small_digest (codes "host") 12 11 (omega arith) (omega arith)

open_tunnel-Opens_example :
    Opens small_tunnels
      (codes "a")
      22
      (32772 ∷ 32773 ∷ [])
      small_shared
      (open_tunnel small_tunnels (codes "a") 22 (32772 ∷ 32773 ∷ []) small_shared)
open_tunnel-Opens_example =
    open_tunnel-Opens small_tunnels (codes "a") 22 (32772 ∷ 32773 ∷ []) small_shared

abbrev two_servers : List (Text × List (Text × ℤ))
two_servers =
    (codes "a", (codes "22", pos 5) ∷ (codes "80", pos 6) ∷ [])
    ∷ (codes "b", (codes "22", pos 7) ∷ [])
    ∷ []

load_state-skips :
    load_state (
      some (
        object (
          (
            codes "a",
            ports_object ((codes "22", boolean true) ∷ (codes "80", integer (negsuc 6)) ∷ []),
          )
          ∷ (codes "b", other_entry)
          ∷ [])))
    ≡ ok ((codes "a", (codes "80", negsuc 6) ∷ []) ∷ [])
unfolding program
load_state-skips = refl

load_state-entries_of_example : load_state (some (object (entries_of two_servers))) ≡ ok two_servers
unfolding program
load_state-entries_of_example =
    load_state-entries_of two_servers (refl, (refl, tt)) ((refl, (refl, tt)), ((refl, tt), tt))

-- ===== src/Forwarding/Tunnel.antt =====
-- port_forwarding.py: the servers, the recorded ports, the tunnel to one server and one pass of its
-- loop. A tunnel is a call: its process is what the machine waits for.
use pyntara.Shared.{
  ℕ, suc, Bool, true, false, Option, none, some, List, [], ◌∷◌, ◌++◌, ltb, contains, ◌==◌, nat_eq,
  list_eq, option_eq, if◌then◌else◌,
}
use pyntara.Text.{Text, codes, strip, splitlines, is_nonempty, decimal}
use pyntara.Effects.{Answer, ok, raised}
use pyntara.Forwarding.Integers.{ℤ, pos, int_eq}
use pyntara.Programs.{Program, pure, attempt, ◌>>=◌, ◌>>◌}
use pyntara.Metrics.Machine.{JournalLine}
use pyntara.Metrics.Entries.{error_priority}
use pyntara.Metrics.Backoff.{backoff_delay}

-- The recorded ports: for each server the remote port of each local port.
abbrev pub Ports : Type 0
Ports = List (Text × ℤ)

abbrev pub Recorded : Type 0
Recorded = List (Text × Ports)

-- What start_forward returns: the port is taken there, or another error.
pub record Started : Type 0 where
  pub busy : Bool
  pub error : Option Text

pub record Tunnels (W : Type 0) : Type 0 where
  pub start_forward : (server : Text) → (port : ℕ) → W → Answer Started × W
  -- proc.wait(), with the seconds that the connection stayed up
  pub wait_dropped : W → ℕ × W
  -- the write of the state file, with the OSError that is logged
  pub write_state : Recorded → W → Option Text × W
  pub trigger_collection : W → Answer (Unit {0}) × W
  pub sleep : ℕ → W → W

-- `state` is shared by the threads, under a lock; `saved` is what the state file holds.
pub record ForwardState (W : Type 0) : Type 0 where
  pub world : W
  pub state : Recorded
  pub saved : Option Recorded
  pub journal : List JournalLine

abbrev pub Action : Type 0 → Type 0 → Type 0
Action W A = Program (ForwardState W) A

unfoldable pub say : {W : Type 0} → Text → Option ℕ → Action W (Unit {0})
say text priority s =
    (ok tt, record s { journal = s.journal ++ record { text = text; priority = priority } ∷ [] })

abbrev pub backoff_base_seconds_of_forwarding : ℕ
backoff_base_seconds_of_forwarding = 2

abbrev pub backoff_multiplier_of_forwarding : ℕ
backoff_multiplier_of_forwarding = 2

abbrev pub backoff_max_seconds_of_forwarding : ℕ
backoff_max_seconds_of_forwarding = 1024

abbrev pub state_file_path : Text
state_file_path = codes "/var/lib/pyntara/port_forwarding_state.json"

-- dict.get and the assignment of a key
unfoldable pub value_at {ℓ} : {A : Type ℓ} → List (Text × A) → Text → Option A
value_at [] key = none
value_at ((k, value) ∷ entries) key = if key == k then some value else value_at entries key

unfoldable pub with_value {ℓ} : {A : Type ℓ} → List (Text × A) → Text → A → List (Text × A)
with_value [] key value = (key, value) ∷ []
with_value ((k, old) ∷ entries) key value =
    let rest = with_value entries key value in
    if key == k then (k, value) ∷ entries else (k, old) ∷ rest

abbrev pub or_empty : Option Ports → Ports
or_empty none = []
or_empty (some ports) = ports

-- state.get(server, {}).get(str(local_port))
abbrev pub recorded_port : Recorded → (server : Text) → (local_port : ℕ) → Option ℤ
recorded_port state server local_port =
    value_at (or_empty (value_at state server)) (decimal local_port)

-- state.setdefault(server, {})[str(local_port)] = port
abbrev pub with_port : Recorded → (server : Text) → (local_port port : ℕ) → Recorded
with_port state server local_port port =
    with_value state server
      (with_value (or_empty (value_at state server)) (decimal local_port) (pos port))

module _ (host_of : Text → Text) where
  -- filter_own_servers, over the normalized host of an address: the kept and the skipped ones
  unfoldable pub filter_own_servers : (servers own : List Text) → List Text × List Text
  filter_own_servers [] own = ([], [])
  filter_own_servers (server ∷ servers) own =
      let (kept, skipped) = filter_own_servers servers own in
      if contains own (host_of server) then (kept, server ∷ skipped) else (server ∷ kept, skipped)

-- The url of an entry is absent or a text; the addresses of the group.
unfoldable pub server_addresses : List (Option Text) → List Text
server_addresses [] = []
server_addresses (none ∷ urls) = server_addresses urls
server_addresses (some url ∷ urls) =
    let rest = server_addresses urls in
    let address = strip url in if is_nonempty address then address ∷ rest else rest

abbrev pub read_server_addresses : (group : Option (List (Option Text))) → List Text
read_server_addresses none = []
read_server_addresses (some urls) = server_addresses urls

-- The last line that is not blank, or nothing.
unfoldable pub last_of_lines : (last : Text) → List Text → Text
last_of_lines last [] = last
last_of_lines last (line ∷ lines) =
    last_of_lines (if is_nonempty (strip line) then strip line else last) lines

unfoldable pub last_line : Text → Text
last_line text = last_of_lines [] (splitlines text)

module _ {W : Type 0} (tunnels : Tunnels W) where
  unfoldable pub start : (server : Text) → (port : ℕ) → Action W Started
  start server port s =
      let (answer, w) = tunnels.start_forward server port s.world in
      (answer, record s { world = w })

  unfoldable pub sleeping : ℕ → Action W (Unit {0})
  sleeping seconds s = (ok tt, record s { world = tunnels.sleep seconds s.world })

  unfoldable pub waiting : Action W ℕ
  waiting s = let (uptime, w) = tunnels.wait_dropped s.world in (ok uptime, record s { world = w })

  unfoldable pub collecting : Action W (Unit {0})
  collecting s =
      let (answer, w) = tunnels.trigger_collection s.world in (answer, record s { world = w })

  -- save_state. A write that failed leaves the file as it was.
  abbrev pub written_state : Option Text → ForwardState W → Answer (Unit {0}) × ForwardState W
  written_state none s = (ok tt, record s { saved = some s.state })
  written_state (some text) s =
      say
        (codes "cannot save the port-forwarding state "
          ++ (state_file_path ++ (codes ": " ++ text)))
        none s

  unfoldable pub save_state : Action W (Unit {0})
  save_state s =
      let (failure, w) = tunnels.write_state s.state s.world in
      written_state failure (record s { world = w })

  module _ (server : Text) (local_port : ℕ) where
    -- What _open_tunnel makes of an answer that is not busy.
    unfoldable pub accepted_or : (port : ℕ) → Option Text → Action W (Option ℕ)
    accepted_or port none = pure (some port)
    accepted_or port (some text) =
        say
          (server
            ++ (codes ": cannot connect for local "
                ++ (decimal local_port ++ (codes ": " ++ text))))
          none
        >> pure none

    unfoldable pub walk_on :
        (port : ℕ)
        → (rest : Action W (Option ℕ)) → (busy : Bool) → Option Text
        → Action W (Option ℕ)
    walk_on port rest true error =
        say
          (server
            ++ (codes ": remote port "
                ++ (decimal port ++ (codes " is taken there, trying the next candidate"))))
          none
        >> sleeping backoff_base_seconds_of_forwarding
        >> rest
    walk_on port rest false error = accepted_or port error

    -- _open_tunnel, over the candidates of the chain.
    unfoldable pub open_tunnel : (candidates : List ℕ) → Action W (Option ℕ)
    open_tunnel [] =
        say (server ++ codes ": every port of the range is taken, no tunnel for this attempt")
          error_priority
        >> pure none
    open_tunnel (port ∷ candidates) =
        let rest = open_tunnel candidates in
        start server port >>= λ started. walk_on port rest started.busy started.error

  -- The part under the lock: whether the port is another than the recorded one, which is then
  -- recorded and saved.
  unfoldable pub record_port : (server : Text) → (local_port port : ℕ) → Action W Bool
  record_port server local_port port s =
      if recorded_port s.state server local_port == some (pos port)
      then (ok false, s)
      else (save_state >> pure true) (record s { state = with_port s.state server local_port port })

  abbrev pub delay_of : (reconnect : ℕ) → ℕ
  delay_of reconnect =
      backoff_delay reconnect backoff_base_seconds_of_forwarding backoff_multiplier_of_forwarding
        backoff_max_seconds_of_forwarding

  -- The pause behind an attempt, and the counter that the next one has.
  unfoldable pub backing_off : (reconnect : ℕ) → Action W ℕ
  backing_off reconnect = sleeping (delay_of (suc reconnect)) >> pure (suc reconnect)

  module _ (server : Text) (local_port : ℕ) where
    -- The connection that was opened, until it drops.
    unfoldable pub keep_tunnel : (reconnect port : ℕ) → Action W ℕ
    keep_tunnel reconnect port = do
      changed_port ← record_port server local_port port
      _ ← if changed_port then collecting else pure tt
      _ ←
          say
            (server
              ++ (codes ": forwarding local port "
                  ++ (decimal local_port ++ (codes " to remote port " ++ decimal port))))
            none
      uptime ← waiting
      _ ←
          say
            (server
              ++ (codes ": connection to " ++ (decimal port ++ codes " dropped, reconnecting")))
            none
      backing_off (if ltb uptime backoff_max_seconds_of_forwarding then reconnect else 0)

    unfoldable pub keep_opened : (reconnect : ℕ) → Option ℕ → Action W ℕ
    keep_opened reconnect none = backing_off reconnect
    keep_opened reconnect (some port) = keep_tunnel reconnect port

    -- One pass of the loop: the answer is the counter.
    unfoldable pub forward_once : (candidates : List ℕ) → (reconnect : ℕ) → Action W ℕ
    forward_once candidates reconnect = do
      answer ← attempt (open_tunnel server local_port candidates >>= keep_opened reconnect)
      elim answer [
        | ok counter ↦ pure counter
        | raised text ↦
            say (server ++ (codes ": unexpected error: " ++ text)) error_priority
            >> backing_off reconnect
      ]

-- ===== src/Forwarding/Loaded.antt =====
-- load_state of port_forwarding.py. The file is a parsed JSON document, of which load_state looks at
-- two levels.
use pyntara.Shared.{Bool, Option, none, some, List, [], ◌∷◌}
use pyntara.Text.{Text, codes}
use pyntara.Effects.{Answer, ok, raised}
use pyntara.Forwarding.Integers.{ℤ}
use pyntara.Forwarding.Tunnel.{Ports, Recorded, with_value}

pub data Value : Type 0 where
  integer : ℤ → Value
  boolean : Bool → Value
  -- a float, a text, null, a list or an object
  other_value : Value

pub data Entry : Type 0 where
  ports_object : List (Text × Value) → Entry
  other_entry : Entry

-- `other_document` is a list, a text, a number, a Boolean or null.
pub data Document : Type 0 where
  object : List (Text × Entry) → Document
  other_document : Document

-- The loop over the ports of one server.
unfoldable pub parsed_ports : (parsed : Ports) → List (Text × Value) → Ports
parsed_ports parsed [] = parsed
parsed_ports parsed ((local_port, integer remote_port) ∷ ports) =
    parsed_ports (with_value parsed local_port remote_port) ports
parsed_ports parsed ((local_port, boolean b) ∷ ports) = parsed_ports parsed ports
parsed_ports parsed ((local_port, other_value) ∷ ports) = parsed_ports parsed ports

-- The loop over the servers.
unfoldable pub loaded_entries : (result : Recorded) → List (Text × Entry) → Recorded
unfolding parsed_ports
loaded_entries result [] = result
loaded_entries result ((server, ports_object ports) ∷ entries) =
    loaded_entries (with_value result server (parsed_ports [] ports)) entries
loaded_entries result ((server, other_entry) ∷ entries) = loaded_entries result entries

-- `none` is a file that is not read or is no JSON. A document that is no object has no `items`.
unfoldable pub load_state : (document : Option Document) → Answer Recorded
unfolding loaded_entries
load_state none = ok []
load_state (some (object entries)) = ok (loaded_entries [] entries)
load_state (some other_document) = raised (codes "AttributeError")

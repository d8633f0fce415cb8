-- ===== src/Forwarding/Restored.antt =====
-- `load_state` reads the ports back that are recorded in the state file.
use pyntara.Shared.{
  ◌≡◌, refl, sym, ap, ◌∙◌, inl, inr, none, some, List, [], ◌∷◌, ◌++◌, map, append-nil, append_assoc,
  All, Bool-cases, ◌==◌, nat_eq, list_eq,
}
use pyntara.Text.{Text}
use pyntara.Effects.{ok}
use pyntara.Forwarding.Tunnel.{Ports, Recorded, value_at, with_value}
use pyntara.Forwarding.Loaded.{
  Value, integer, Entry, ports_object, object, parsed_ports, loaded_entries, load_state,
}

module _ {A : Type 0} where
  with_value-new :
      (entries : List (Text × A)) (key : Text) (value : A)
      → value_at entries key ≡ none
      → with_value entries key value ≡ entries ++ (key, value) ∷ []
  unfolding value_at with_value
  with_value-new [] key value h = refl
  with_value-new ((k, old) ∷ entries) key value h = elim (Bool-cases (key == k)) [
    | inl same ↦ absurd (let e = rw (same, value_at) at h in cc)
    | inr differs ↦
        rw (differs, with_value)
          (ap (λ es. (k, old) ∷ es)
            (with_value-new entries key value (rw (differs, value_at) at h)))
  ]

  -- Each key of `entries` is new when its entry is added to `before`.
  abbrev pub AreNew : (before entries : List (Text × A)) → Type 0
  AreNew before [] = Unit
  AreNew before ((key, value) ∷ entries) =
      (value_at before key ≡ none) × AreNew (before ++ (key, value) ∷ []) entries

-- A dict, as the list of its entries.
abbrev pub IsDict : {A : Type 0} → List (Text × A) → Type 0
IsDict entries = AreNew [] entries

abbrev pub ports_of : Ports → List (Text × Value)
ports_of ports = map (λ port. (port.0, integer port.1)) ports

-- The document of a state, which json.dumps writes and json.loads reads.
abbrev pub entries_of : Recorded → List (Text × Entry)
entries_of state = map (λ entry. (entry.0, ports_object (ports_of entry.1))) state

parsed_ports-ports_of :
    (before ports : Ports)
    → AreNew before ports
    → parsed_ports before (ports_of ports) ≡ before ++ ports
unfolding parsed_ports
parsed_ports-ports_of before [] new = sym (append-nil before)
parsed_ports-ports_of before ((local_port, port) ∷ ports) (is_new, new) =
    ap (λ parsed. parsed_ports parsed (ports_of ports))
      (with_value-new before local_port port is_new)
    ∙ parsed_ports-ports_of (before ++ (local_port, port) ∷ []) ports new
    ∙ append_assoc before ((local_port, port) ∷ []) ports

loaded_entries-entries_of :
    (before state : Recorded)
    → AreNew before state
    → All (λ entry. IsDict entry.1) state
    → loaded_entries before (entries_of state) ≡ before ++ state
unfolding loaded_entries
loaded_entries-entries_of before [] new dicts = sym (append-nil before)
loaded_entries-entries_of before ((server, ports) ∷ state) (is_new, new) (dict, dicts) =
    ap (λ parsed. loaded_entries (with_value before server parsed) (entries_of state))
      (parsed_ports-ports_of [] ports dict)
    ∙ ap (λ result. loaded_entries result (entries_of state))
        (with_value-new before server ports is_new)
    ∙ loaded_entries-entries_of (before ++ (server, ports) ∷ []) state new dicts
    ∙ append_assoc before ((server, ports) ∷ []) state

-- From the document of a state, with one entry for each server and one for each local port of it,
-- load_state reads that state.
pub load_state-entries_of :
    (state : Recorded)
    → IsDict state
    → All (λ entry. IsDict entry.1) state
    → load_state (some (object (entries_of state))) ≡ ok state
unfolding load_state
load_state-entries_of state dict dicts = ap ok (loaded_entries-entries_of [] state dict dicts)

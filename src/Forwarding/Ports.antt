-- ===== src/Forwarding/Ports.antt =====
-- forwarding_ports.py. The first four bytes of sha256 of a name, as a number, are the parameter
-- `digest`.
use pyntara.Shared.{
  ℕ, zero, suc, ◌+◌, ◌-◌, ◌%◌, List, [], ◌∷◌, ◌++◌, length, ltb, contains, ◌==◌, nat_eq,
  if◌then◌else◌,
}
use pyntara.Text.{Text, decimal}

abbrev pub desired_port_min : ℕ
desired_port_min = 32768

abbrev pub desired_port_max : ℕ
desired_port_max = 60999

abbrev pub span : ℕ
span = desired_port_max - desired_port_min + 1

abbrev pub salt : (attempt : ℕ) → Text
salt attempt = if attempt == 1 then [] else decimal attempt

module _ (digest : Text → ℕ) where
  unfoldable pub desired_port : (hostname : Text) → ℕ
  desired_port hostname = desired_port_min + digest hostname % span

  module _ (hostname : Text) where
    abbrev pub port_of_attempt : ℕ → ℕ
    port_of_attempt attempt = desired_port (hostname ++ salt attempt)

    -- What so many rounds of the walk yield, from the ports that it has seen.
    unfoldable pub walk_ports : (rounds : ℕ) → (seen : List ℕ) → (attempt : ℕ) → List ℕ
    walk_ports zero seen attempt = []
    walk_ports (suc rounds) seen attempt =
        let port = port_of_attempt attempt in
        let known = contains seen port in
        let rest = walk_ports rounds (if known then seen else port ∷ seen) (suc attempt) in
        if ltb (length seen) span then (if known then rest else port ∷ rest) else []

    unfoldable pub candidate_ports : (rounds : ℕ) → List ℕ
    candidate_ports rounds = walk_ports rounds [] 1

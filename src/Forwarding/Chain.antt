-- ===== src/Forwarding/Chain.antt =====
-- What the walk over the candidate ports yields.
use pyntara.Shared.{
  ℕ, zero, suc, All, ltb→lt, ◌+◌, ◌≤◌, ◌<◌, ◌⊎◌, ◌≡◌, refl, ap, inl, inr, true, false, List, [],
  ◌∷◌, length, ltb, contains, ==-cases, ==-same, nat_eq, arith, Bool-cases,
}
use pyntara.Text.{Text}
use pyntara.Forwarding.Ports.{
  desired_port, desired_port_min, desired_port_max, span, port_of_attempt, walk_ports,
  candidate_ports,
}

-- No element stands twice in the list.
abbrev pub AllDistinct : List ℕ → Type 0
AllDistinct [] = Unit
AllDistinct (p ∷ ports) = (contains ports p ≡ false) × AllDistinct ports

abbrev pub IsInRange : ℕ → Type 0
IsInRange p = (desired_port_min ≤ p) × (p ≤ desired_port_max)

module _ (digest : Text → ℕ) (hostname : Text) where
  -- A port that was seen is not yielded.
  walk_ports-seen :
      (rounds : ℕ) (seen : List ℕ) (attempt : ℕ) (p : ℕ)
      → contains seen p ≡ true
      → contains (walk_ports digest hostname rounds seen attempt) p ≡ false
  unfolding walk_ports
  walk_ports-seen zero seen attempt p h = refl
  walk_ports-seen (suc rounds) seen attempt p h =
      let port = port_of_attempt digest hostname attempt in
      elim (Bool-cases (ltb (length seen) span)) [
        | inr full ↦ rw full refl
        | inl room ↦ elim (Bool-cases (contains seen port)) [
          | inl known ↦ rw (room, known) (walk_ports-seen rounds seen (suc attempt) p h)
          | inr new ↦
              let ih = walk_ports-seen rounds (port ∷ seen) (suc attempt) p (ground arith) in
              elim (==-cases p port) [
                | inl e ↦ absurd (cc (ap (contains seen) e, h, new))
                | inr d ↦ rw (room, new) (rw (d) ih)
              ]
        ]
      ]

  walk_ports-AllDistinct :
      (rounds : ℕ) (seen : List ℕ) (attempt : ℕ)
      → AllDistinct (walk_ports digest hostname rounds seen attempt)
  unfolding walk_ports
  walk_ports-AllDistinct zero seen attempt = tt
  walk_ports-AllDistinct (suc rounds) seen attempt =
      let port = port_of_attempt digest hostname attempt in
      elim (Bool-cases (ltb (length seen) span)) [
        | inr full ↦ rw full tt
        | inl room ↦ elim (Bool-cases (contains seen port)) [
          | inl known ↦ rw (room, known) (walk_ports-AllDistinct rounds seen (suc attempt))
          | inr new ↦
              rw (room, new)
                (
                  walk_ports-seen rounds (port ∷ seen) (suc attempt) port
                      (ground (arith, ==-same (refl {a = port}))),
                  walk_ports-AllDistinct rounds (port ∷ seen) (suc attempt),
                )
        ]
      ]

  desired_port-IsInRange : (name : Text) → IsInRange (desired_port digest name)
  unfolding desired_port
  desired_port-IsInRange name = (omega arith, omega arith)

  walk_ports-range :
      (rounds : ℕ) (seen : List ℕ) (attempt : ℕ)
      → All IsInRange (walk_ports digest hostname rounds seen attempt)
  unfolding walk_ports
  walk_ports-range zero seen attempt = tt
  walk_ports-range (suc rounds) seen attempt =
      let port = port_of_attempt digest hostname attempt in
      elim (Bool-cases (ltb (length seen) span)) [
        | inr full ↦ rw full tt
        | inl room ↦ elim (Bool-cases (contains seen port)) [
          | inl known ↦ rw (room, known) (walk_ports-range rounds seen (suc attempt))
          | inr new ↦
              rw (room, new)
                (desired_port-IsInRange _, walk_ports-range rounds (port ∷ seen) (suc attempt))
        ]
      ]

  -- The walk never yields more ports than the range has.
  walk_ports-length :
      (rounds : ℕ) (seen : List ℕ) (attempt : ℕ)
      → length seen ≤ span
      → length seen + length (walk_ports digest hostname rounds seen attempt) ≤ span
  unfolding walk_ports
  walk_ports-length zero seen attempt h = omega arith
  walk_ports-length (suc rounds) seen attempt h =
      let port = port_of_attempt digest hostname attempt in
      elim (Bool-cases (ltb (length seen) span)) [
        | inr full ↦ rw full (omega arith)
        | inl room ↦ elim (Bool-cases (contains seen port)) [
          | inl known ↦ rw (room, known) (walk_ports-length rounds seen (suc attempt) h)
          | inr new ↦
              let ih = walk_ports-length rounds (port ∷ seen) (suc attempt) (ltb→lt _ _ room) in
              rw (room, new) (omega (arith, ih))
        ]
      ]

  -- The port is among those that were seen and yielded, or the range is used up.
  abbrev IsMet : ℕ → List ℕ → List ℕ → Type 0
  IsMet p seen ports =
      (contains seen p ≡ true) ⊎ (contains ports p ≡ true) ⊎ (span ≤ length seen + length ports)

  IsMet-known :
      (p : ℕ) (seen ports : List ℕ) (port : ℕ)
      → IsMet p (port ∷ seen) ports
      → IsMet p seen (port ∷ ports)
  IsMet-known p seen ports port (inl e) = elim (==-cases p port) [
    | inl same ↦ inr (inl (ground (arith, ==-same same)))
    | inr d ↦ inl (ground arith)
  ]
  IsMet-known p seen ports port (inr (inl e)) = inr (inl (ground arith))
  IsMet-known p seen ports port (inr (inr e)) = inr (inr (omega (arith, e)))

  walk_ports-attempts :
      (rounds : ℕ) (seen : List ℕ) (attempt a : ℕ)
      → attempt ≤ a
      → a < attempt + rounds
      → IsMet
          (port_of_attempt digest hostname a)
          seen
          (walk_ports digest hostname rounds seen attempt)
  unfolding walk_ports
  walk_ports-attempts zero seen attempt a l h = absurd (omega (arith, l, h))
  walk_ports-attempts (suc rounds) seen attempt a l h =
      let port = port_of_attempt digest hostname attempt in
      elim (Bool-cases (ltb (length seen) span)) [
        | inr full ↦ inr (inr (ground arith))
        | inl room ↦ elim (==-cases a attempt) [
          | inl e ↦ elim (Bool-cases (contains seen port)) [
            | inl known ↦ inl (rw e known)
            | inr new ↦
                rw (room, new) (rw e (inr (inl (ground (arith, ==-same (refl {a = port}))))))
          ]
          | inr later ↦ elim (Bool-cases (contains seen port)) [
            | inl known ↦
                rw (room, known)
                  (walk_ports-attempts rounds seen (suc attempt) a (ground arith)
                    (omega (arith, h)))
            | inr new ↦
                rw (room, new)
                  (IsMet-known _ seen _ port (
                    walk_ports-attempts rounds (port ∷ seen) (suc attempt) a (ground arith)
                      (omega (arith, h))))
          ]
        ]
      ]

  -- However many rounds of the walk are taken, the candidates are distinct ports of the range, not
  -- more than it has, and the port of every attempt of these rounds is one of them, unless the
  -- whole range has been offered.
  pub candidate_ports-chain :
      (rounds attempt : ℕ)
      → 1 ≤ attempt
      → attempt ≤ rounds
      → AllDistinct (candidate_ports digest hostname rounds)
        × All IsInRange (candidate_ports digest hostname rounds)
        × (length (candidate_ports digest hostname rounds) ≤ span)
        × ((contains
                (candidate_ports digest hostname rounds)
                (port_of_attempt digest hostname attempt)
              ≡ true)
            ⊎ (length (candidate_ports digest hostname rounds) ≡ span))
  unfolding candidate_ports
  candidate_ports-chain rounds attempt l h =
      let bound = walk_ports-length rounds [] 1 (omega arith) in
      (
        walk_ports-AllDistinct rounds [] 1,
        walk_ports-range rounds [] 1,
        omega (arith, bound),
        elim (walk_ports-attempts rounds [] 1 attempt l (omega (arith, h))) [
          | inl e ↦ absurd (cc)
          | inr (inl e) ↦ inl e
          | inr (inr full) ↦ inr (omega (arith, bound, full))
        ],
      )

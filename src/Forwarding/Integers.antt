-- ===== src/Forwarding/Integers.antt =====
-- The int of a recorded port, which JSON may give below zero.
use pyntara.Shared.{ℕ, ap, Eq, nat_eq}
use mathlib.Core.Logic.{dite}
use native.Mathlib.Decide.{ℕ_discrete}

pub data ℤ : Type 0 where
  pos : ℕ → ℤ
  negsuc : ℕ → ℤ

abbrev magnitude : ℤ → ℕ
magnitude (pos n) = n
magnitude (negsuc n) = n

int_dec : Discrete ℤ
int_dec (pos m) (pos n) =
    dite (ℕ_discrete m n) (λ e. yes (ap pos e)) (λ d. no (λ e. d (ap magnitude e)))
int_dec (pos m) (negsuc n) = no (λ e. cc)
int_dec (negsuc m) (pos n) = no (λ e. cc)
int_dec (negsuc m) (negsuc n) =
    dite (ℕ_discrete m n) (λ e. yes (ap negsuc e)) (λ d. no (λ e. d (ap magnitude e)))

instance unfoldable pub int_eq : Eq ℤ
unfolding int_dec
int_eq = record { dec = int_dec }

-- ===== src/Shared/Equality.antt =====
-- Python's `==`, `in` and `not in`, for every type whose equality can be decided.
use Prim.Native.Nat.{ℕ}
use mathlib.Core.Path.{◌≡◌, refl, ap, ap₂}
use mathlib.Core.Logic.{ite, dite, ◌⊎◌, inl, inr, ◌≢◌}
use mathlib.Core.Bool.{Bool, true, false, ◌||◌}
use mathlib.Core.Option.{Option, none, some, none-ne-some, some-ne-none, some-injective}
use mathlib.Core.List.{List, [], ◌∷◌, Memᴰ}
use native.Mathlib.Decide.{ℕ_discrete}
use native.Mathlib.Omega.{arith}

pub record Eq {ℓ} (A : Type ℓ) : Type ℓ where
  pub dec : Discrete A

module _ {ℓ} {A : Type ℓ} ⦃e : Eq A⦄ where
  infix 50 ◌==◌
  abbrev pub ◌==◌ : A → A → Bool
  a == b = ite (e.dec a b) true false

  abbrev pub contains : List A → A → Bool
  contains [] a = false
  contains (x ∷ xs) a = a == x || contains xs a

  pub ==-cases : (a b : A) → (a ≡ b) ⊎ ((a == b) ≡ false)
  ==-cases a b = elim (e.dec a b) [ yes p ↦ inl p | no n ↦ inr (ground arith) ]

  pub ==-same : {a b : A} → a ≡ b → (a == b) ≡ true
  ==-same {a} {b} p = elim (e.dec a b) [ yes q ↦ ground arith | no n ↦ absurd (n p) ]

  pub ==-differ : {a b : A} → a ≡ b → (a == b) ≢ false
  ==-differ {a} {b} p h = elim (e.dec a b) [ yes q ↦ absurd (ground arith) | no n ↦ n p ]

  list_dec : Discrete (List A)
  list_dec [] [] = yes refl
  list_dec [] (y ∷ ys) = no (λ p. cc)
  list_dec (x ∷ xs) [] = no (λ p. cc)
  list_dec (x ∷ xs) (y ∷ ys) =
      dite (e.dec x y)
        (λ p. dite (list_dec xs ys) (λ q. yes (ap₂ (λ a l. a ∷ l) p q)) (λ n. no (λ r. n (cc))))
        (λ n. no (λ r. n (cc)))

  option_dec : Discrete (Option A)
  option_dec none none = yes refl
  option_dec none (some b) = no (none-ne-some b)
  option_dec (some a) none = no (some-ne-none a)
  option_dec (some a) (some b) =
      dite (e.dec a b) (λ p. yes (ap some p)) (λ n. no (λ p. n (some-injective a b p)))

  instance unfoldable pub option_eq : Eq (Option A)
  unfolding option_dec
  option_eq = record { dec = option_dec }

  instance unfoldable pub list_eq : Eq (List A)
  unfolding list_dec
  list_eq = record { dec = list_dec }

  pub contains→Memᴰ : (a : A) (xs : List A) → contains xs a ≡ true → Memᴰ a xs
  contains→Memᴰ a [] h = absurd (cc)
  contains→Memᴰ a (x ∷ xs) h = elim (e.dec a x) [
    | yes p ↦ Memᴰ.head p
    | no n ↦ Memᴰ.tail (contains→Memᴰ a xs (ground arith))
  ]

  pub Memᴰ→contains : (a : A) {xs : List A} → Memᴰ a xs → contains xs a ≡ true
  Memᴰ→contains a (Memᴰ.head p) = ground arith
  Memᴰ→contains a (Memᴰ.tail m) = ground (arith, Memᴰ→contains a m)

instance unfoldable pub nat_eq : Eq ℕ
unfolding ℕ_discrete
nat_eq = record { dec = ℕ_discrete }

-- ===== src/Shared/Members.antt =====
-- Membership in what the list functions of this library return.
use mathlib.Core.List.Memᴰ
use mathlib.Core.Path.{◌≡◌, refl, sym}
use mathlib.Core.Logic.{inl, inr}
use mathlib.Core.Bool.{Bool, true, false}
use mathlib.Core.List.{List, [], ◌∷◌, map, Memᴰ, Sublistᴰ}
use native.Mathlib.Omega.{arith}
use pyntara.Shared.Tests.{Bool-cases}
use pyntara.Shared.Lists.{filter, any, all}

module _ {ℓ} {A : Type ℓ} (p : A → Bool) where
  pub any→Memᴰ : (xs : List A) → any p xs ≡ true → (x : A) × Memᴰ x xs × (p x ≡ true)
  any→Memᴰ [] h = absurd (cc)
  any→Memᴰ (x ∷ xs) h = elim (Bool-cases (p x)) [
    | inl here ↦ (x, Memᴰ.head refl, here)
    | inr skip ↦ let (y, m, e) = any→Memᴰ xs (ground arith) in (y, Memᴰ.tail m, e)
  ]

  pub Memᴰ→any : {x : A} {xs : List A} → Memᴰ x xs → p x ≡ true → any p xs ≡ true
  Memᴰ→any (Memᴰ.head e) h = ground arith
  Memᴰ→any (Memᴰ.tail m) h = ground (arith, Memᴰ→any m h)

  pub all→ : {x : A} {xs : List A} → all p xs ≡ true → Memᴰ x xs → p x ≡ true
  all→ h (Memᴰ.head e) = ground arith
  all→ {xs = xs} h (Memᴰ.tail m) = all→ (ground arith) m

  pub filter→Memᴰ : (xs : List A) {x : A} → Memᴰ x (filter p xs) → Memᴰ x xs × (p x ≡ true)
  filter→Memᴰ [] m = absurd (Memᴰ.not-nil m)
  filter→Memᴰ (y ∷ xs) {x} m = elim (Bool-cases (p y)) [
    | inl keep ↦ elim (Memᴰ.cases_cons {l = filter p xs} (rw keep at m)) [
      | inl e ↦ (Memᴰ.head e, rw e keep)
      | inr n ↦ let (k, h) = filter→Memᴰ xs n in (Memᴰ.tail k, h)
    ]
    | inr skip ↦ let (k, h) = filter→Memᴰ xs {x = x} (rw skip at m) in (Memᴰ.tail k, h)
  ]

  pub Memᴰ→filter : (xs : List A) {x : A} → Memᴰ x xs → p x ≡ true → Memᴰ x (filter p xs)
  Memᴰ→filter [] m h = absurd (Memᴰ.not-nil m)
  Memᴰ→filter (y ∷ xs) (Memᴰ.head e) h = rw (rw e at h) (Memᴰ.head e)
  Memᴰ→filter (y ∷ xs) (Memᴰ.tail m) h = elim (Bool-cases (p y)) [
    | inl keep ↦ rw keep (Memᴰ.tail (Memᴰ→filter xs m h))
    | inr skip ↦ rw skip (Memᴰ→filter xs m h)
  ]

  pub map-filter-Sublistᴰ :
      {B : Type ℓ} (f : A → B) (xs : List A) → Sublistᴰ (map f (filter p xs)) (map f xs)
  map-filter-Sublistᴰ f [] = Sublistᴰ.slnil
  map-filter-Sublistᴰ f (x ∷ xs) = elim (Bool-cases (p x)) [
    | inl keep ↦ rw keep (Sublistᴰ.cons-cons refl (map-filter-Sublistᴰ f xs))
    | inr skip ↦ rw skip (Sublistᴰ.cons (map-filter-Sublistᴰ f xs))
  ]

-- Two tests that agree on a list filter it alike.
pub filter_congr {ℓ} :
    {A : Type ℓ} (p q : A → Bool) (xs : List A)
    → ((x : A) → Memᴰ x xs → p x ≡ q x)
    → filter p xs ≡ filter q xs
filter_congr p q [] h = refl
filter_congr p q (x ∷ xs) h =
    let ih = filter_congr p q xs (λ y m. h y (Memᴰ.tail m)) in
    ground (arith, h x (Memᴰ.head refl), ih)

-- Two tests with the same positive cases agree.
pub Bool-ext : (b c : Bool) → (b ≡ true → c ≡ true) → (c ≡ true → b ≡ true) → b ≡ c
Bool-ext true c f g = sym (f refl)
Bool-ext false true f g = g refl
Bool-ext false false f g = refl

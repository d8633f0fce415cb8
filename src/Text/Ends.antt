-- ===== src/Text/Ends.antt =====
-- Texts by their last character, and texts without white space at their ends.
use pyntara.Shared.{
  ℕ, ◌≡◌, refl, ap, ◌∙◌, Bool, true, false, ◌&&◌, [], ◌∷◌, ◌++◌, ◌==◌, nat_eq, list_eq,
  if◌then◌else◌,
}
use pyntara.Text.{Text, is_space, lstrip, rstrip, strip, ends_with}

snoc-nonempty : (s : Text) (z : ℕ) → ((s ++ z ∷ []) == []) ≡ false
unfolding list_eq
snoc-nonempty [] z = refl
snoc-nonempty (c ∷ s) z = refl

rstrip-snoc : (s : Text) (z : ℕ) → is_space z ≡ false → rstrip (s ++ z ∷ []) ≡ s ++ z ∷ []
unfolding rstrip
rstrip-snoc [] z h = rw h
rstrip-snoc (c ∷ s) z h =
    rw (rstrip-snoc s z h, snoc-nonempty s z) (last_false (is_space c) c (s ++ z ∷ []))
  where
    last_false : (b : Bool) (d : ℕ) (t : Text) → (if b && false then [] else d ∷ t) ≡ d ∷ t
    last_false true d t = refl
    last_false false d t = refl

lstrip-solid : (c : ℕ) (s : Text) → is_space c ≡ false → lstrip (c ∷ s) ≡ c ∷ s
unfolding lstrip
lstrip-solid c s h = rw h

-- A text whose first and last characters are no white space is stripped.
pub strip-snoc :
    (c : ℕ) (s : Text) (z : ℕ)
    → is_space c ≡ false
    → is_space z ≡ false
    → strip (c ∷ s ++ z ∷ []) ≡ c ∷ s ++ z ∷ []
unfolding strip
strip-snoc c s z h k = ap rstrip (lstrip-solid c (s ++ z ∷ []) h) ∙ rstrip-snoc (c ∷ s) z k

pub ends_with-snoc : (s : Text) (z last : ℕ) → ends_with (s ++ z ∷ []) last ≡ z == last
unfolding ends_with
ends_with-snoc [] z last = refl
ends_with-snoc (c ∷ []) z last = refl
ends_with-snoc (c ∷ d ∷ s) z last = ends_with-snoc (d ∷ s) z last

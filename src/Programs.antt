-- ===== src/Programs.antt =====
-- Programs over a state that answer or raise. An exception is kept as its `str`, and the state
-- that the program came to stays.
use pyntara.Effects.{Answer, ok, raised}

abbrev pub Program : Type 0 → Type 0 → Type 0
Program S A = S → Answer A × S

module _ {S A : Type 0} where
  unfoldable pub pure : A → Program S A
  pure a s = (ok a, s)

  -- A part without effects.
  abbrev pub from : Answer A → Program S A
  from answer s = (answer, s)

  -- try ... except
  unfoldable pub attempt : Program S A → Program S (Answer A)
  attempt m s = let (answer, s') = m s in (ok answer, s')

module _ {S A B : Type 0} where
  infixl 5 ◌>>=◌ ◌>>◌
  abbrev pub followed_by : Answer A → (A → Program S B) → S → Answer B × S
  followed_by (ok a) f s = f a s
  followed_by (raised text) f s = (raised text, s)

  unfoldable pub ◌>>=◌ : Program S A → (A → Program S B) → Program S B
  ◌>>=◌ m f s = let (answer, s') = m s in followed_by answer f s'

  abbrev pub ◌>>◌ : Program S A → Program S B → Program S B
  m >> n = m >>= λ _. n

-- ===== src/Launcher/Settled.antt =====
-- Lines whose block is the one that `replaced_block` writes, and that it leaves alone.
use mathlib.Core.Option
use mathlib.Core.Option.{some-injective}
use pyntara.Shared.{
  ◌≡◌, refl, sym, ap, ◌∙◌, inl, inr, Bool, true, false, not, Option, none, some, List, [], ◌∷◌,
  ◌++◌, arith, all, all-append, Bool-cases,
}
use pyntara.Text.{Text, starts_with}
use pyntara.Launcher.Blocks.{behind, swapped}

abbrev pub starts_other : (prefix : Text) → List Text → Bool
starts_other prefix [] = true
starts_other prefix (line ∷ lines) = not (starts_with prefix line)

module _ (prefix : Text) where
  behind-other : (lines : List Text) → starts_other prefix (behind prefix lines) ≡ true
  unfolding behind
  behind-other [] = refl
  behind-other (line ∷ lines) = elim (Bool-cases (starts_with prefix line)) [
    | inl here ↦ rw (here, behind) (behind-other lines)
    | inr other ↦ rw (other, behind) (ap not other)
  ]

  behind-same : (lines : List Text) → starts_other prefix lines ≡ true → behind prefix lines ≡ lines
  unfolding behind
  behind-same [] h = refl
  behind-same (line ∷ lines) h = elim (Bool-cases (starts_with prefix line)) [
    | inl here ↦ absurd (ground arith)
    | inr other ↦ rw (other, behind)
  ]

  behind-run :
      (run lines : List Text)
      → all (starts_with prefix) run ≡ true
      → behind prefix (run ++ lines) ≡ behind prefix lines
  unfolding behind
  behind-run [] lines h = refl
  behind-run (line ∷ run) lines h =
      let here : starts_with prefix line ≡ true = ground arith in
      rw (here, behind) (behind-run run lines (ground arith))

  module _ (replacement : List Text) (line : Text) (lines : List Text) {result : List Text}
      (e : swapped prefix replacement (line ∷ lines) ≡ some result) where
    pub swapped_here : starts_with prefix line ≡ true → result ≡ replacement ++ behind prefix lines
    unfolding swapped
    swapped_here here = sym (some-injective _ _ (rw (here, swapped) at e))

    later_of :
        (later : Option (List Text))
        → Option.map (λ ls. line ∷ ls) later ≡ some result
        → (rest : List Text) × (later ≡ some rest) × (result ≡ line ∷ rest)
    later_of none h = absurd (cc)
    later_of (some rest) h = (rest, refl, sym (some-injective _ _ h))

    pub swapped_there :
        starts_with prefix line ≡ false
        → (rest : List Text) × (swapped prefix replacement lines ≡ some rest)
          × (result ≡ line ∷ rest)
    unfolding swapped
    swapped_there other = later_of (swapped prefix replacement lines) (rw (other, swapped) at e)

  -- What holds of every line before and of every line put in holds of every line after.
  module _ (P : Text → Bool) where
    behind-all : (lines : List Text) → all P lines ≡ true → all P (behind prefix lines) ≡ true
    unfolding behind
    behind-all [] h = refl
    behind-all (line ∷ lines) h = elim (Bool-cases (starts_with prefix line)) [
      | inl here ↦ rw (here, behind) (behind-all lines (ground arith))
      | inr other ↦ rw (other, behind) h
    ]

    pub swapped-all :
        (replacement : List Text)
        → all P replacement ≡ true
        → (lines result : List Text) → all P lines ≡ true
        → swapped prefix replacement lines ≡ some result
        → all P result ≡ true
    unfolding swapped
    swapped-all replacement k [] result h e = absurd (cc)
    swapped-all replacement k (line ∷ lines) result h e =
        elim (Bool-cases (starts_with prefix line)) [
          | inl here ↦
              ap (all P) (swapped_here replacement line lines e here)
              ∙ all-append P replacement (behind prefix lines) k (behind-all lines (ground arith))
          | inr other ↦
              let (rest, found, q) = swapped_there replacement line lines e other in
              let ih = swapped-all replacement k lines rest (ground arith) found in
              ap (all P) q ∙ ground arith
        ]

-- The first run of lines with the prefix is the replacement.
pub data IsSettled (prefix : Text) (replacement : List Text) : List Text → Type 0 where
  here :
      {lines : List Text} (post : List Text)
      → lines ≡ replacement ++ post
      → starts_other prefix post ≡ true
      → IsSettled prefix replacement lines
  there :
      {lines : List Text} (line : Text) (rest : List Text)
      → lines ≡ line ∷ rest
      → starts_with prefix line ≡ false
      → IsSettled prefix replacement rest
      → IsSettled prefix replacement lines

module _ (prefix : Text) where
  pub swapped-IsSettled :
      (replacement lines result : List Text)
      → swapped prefix replacement lines ≡ some result
      → IsSettled prefix replacement result
  unfolding swapped
  swapped-IsSettled replacement [] result e = absurd (cc)
  swapped-IsSettled replacement (line ∷ lines) result e =
      elim (Bool-cases (starts_with prefix line)) [
        | inl found ↦
            here (behind prefix lines) (swapped_here prefix replacement line lines e found)
              (behind-other prefix lines)
        | inr other ↦
            let (rest, later, q) = swapped_there prefix replacement line lines e other in
            there line rest q other (swapped-IsSettled replacement lines rest later)
      ]

  pub IsSettled-swapped :
      (first : Text) (others : List Text)
      → all (starts_with prefix) (first ∷ others) ≡ true
      → (lines : List Text) → IsSettled prefix (first ∷ others) lines
      → swapped prefix (first ∷ others) lines ≡ some lines
  unfolding swapped
  IsSettled-swapped first others k lines (here post q h) =
      let found : starts_with prefix first ≡ true = ground arith in
      rw (q, found, swapped)
        (ap (λ ls. some (first ∷ others ++ ls))
          (behind-run prefix others post (ground arith) ∙ behind-same prefix post h))
  IsSettled-swapped first others k lines (there line rest q other settled) =
      rw (q, other, swapped, IsSettled-swapped first others k rest settled)

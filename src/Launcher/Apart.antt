-- ===== src/Launcher/Apart.antt =====
-- Two blocks of launcher_modes.py with prefixes that no line shares: the replacement of one leaves
-- the other settled.
use mathlib.Core.Option
use mathlib.Core.Option.{some-injective}
use pyntara.Shared.{
  ◌≡◌, refl, sym, ap, ◌∙◌, inl, inr, true, false, not, Option, none, some, List, [], ◌∷◌, ◌++◌,
  arith, all, Bool-cases,
}
use pyntara.Text.{Text, starts_with}
use pyntara.Launcher.Blocks.{behind, swapped}
use pyntara.Launcher.Settled.{starts_other, swapped_here, swapped_there, IsSettled, here, there}

abbrev pub AreApart : (prefix other : Text) → Type 0
AreApart prefix other =
    (line : Text) → starts_with prefix line ≡ true → starts_with other line ≡ false

module _ (prefix other : Text) (apart : AreApart prefix other) (first : Text) (block : List Text)
    (in_block : all (starts_with prefix) (first ∷ block) ≡ true) (new_line : Text)
    (is_apart : starts_with prefix new_line ≡ false) where
  behind-IsSettled :
      (lines : List Text)
      → IsSettled prefix (first ∷ block) lines
      → IsSettled prefix (first ∷ block) (behind other lines)
  unfolding behind
  behind-IsSettled lines (here post q h) =
      let begins : starts_with other first ≡ false = apart first (ground arith) in
      here post (rw (q, begins, behind)) h
  behind-IsSettled lines (there line rest q h settled) =
      elim (Bool-cases (starts_with other line)) [
        | inl found ↦ rw (q, found, behind) (behind-IsSettled rest settled)
        | inr stays ↦ there line rest (rw (q, stays, behind)) h settled
      ]

  abbrev prepended : List Text → Option (List Text) → Option (List Text)
  prepended run = Option.map (λ ls. run ++ ls)

  prepended_line :
      (line : Text) (run : List Text) (later : Option (List Text))
      → Option.map (λ ls. line ∷ ls) (prepended run later) ≡ prepended (line ∷ run) later
  prepended_line line run none = refl
  prepended_line line run (some lines) = refl

  prepended_nothing : (later : Option (List Text)) → later ≡ prepended [] later
  prepended_nothing none = refl
  prepended_nothing (some lines) = refl

  swapped-run :
      (run post : List Text)
      → all (starts_with prefix) run ≡ true
      → swapped other (new_line ∷ []) (run ++ post)
        ≡ prepended run (swapped other (new_line ∷ []) post)
  unfolding swapped
  swapped-run [] post h = prepended_nothing (swapped other (new_line ∷ []) post)
  swapped-run (line ∷ run) post h =
      let stays : starts_with other line ≡ false = apart line (ground arith) in
      rw (stays, swapped, swapped-run run post (ground arith))
        (prepended_line line run (swapped other (new_line ∷ []) post))

  prepended_of :
      (run : List Text) (later : Option (List Text)) (result : List Text)
      → prepended run later ≡ some result
      → (post : List Text) × (later ≡ some post) × (result ≡ run ++ post)
  prepended_of run none result e = absurd (cc)
  prepended_of run (some post) result e = (post, refl, sym (some-injective _ _ e))

  swapped-starts_other :
      (post result : List Text)
      → starts_other prefix post ≡ true
      → swapped other (new_line ∷ []) post ≡ some result
      → starts_other prefix result ≡ true
  unfolding swapped
  swapped-starts_other [] result h e = absurd (cc)
  swapped-starts_other (line ∷ post) result h e = elim (Bool-cases (starts_with other line)) [
    | inl found ↦
        ap (starts_other prefix) (swapped_here other (new_line ∷ []) line post e found)
        ∙ ap not is_apart
    | inr stays ↦
        let (rest, later, q) = swapped_there other (new_line ∷ []) line post e stays in
        ap (starts_other prefix) q ∙ h
  ]

  pub swapped_apart :
      (lines result : List Text)
      → IsSettled prefix (first ∷ block) lines
      → swapped other (new_line ∷ []) lines ≡ some result
      → IsSettled prefix (first ∷ block) result
  swapped_apart lines result (here post q h) e =
      let (rest, later, p) =
        prepended_of (first ∷ block) (swapped other (new_line ∷ []) post) result (
          sym (swapped-run (first ∷ block) post in_block)
          ∙ ap (swapped other (new_line ∷ [])) (sym q)
          ∙ e) in
      here rest p (swapped-starts_other post rest h later)
  swapped_apart lines result (there line rest q h settled) e =
      let e' : swapped other (new_line ∷ []) (line ∷ rest) ≡ some result =
        ap (swapped other (new_line ∷ [])) (sym q) ∙ e in
      elim (Bool-cases (starts_with other line)) [
        | inl found ↦
            there new_line (behind other rest)
              (swapped_here other (new_line ∷ []) line rest e' found) is_apart
              (behind-IsSettled rest settled)
        | inr stays ↦
            let (ls, later, p) = swapped_there other (new_line ∷ []) line rest e' stays in
            there line ls p h (swapped_apart rest ls settled later)
      ]

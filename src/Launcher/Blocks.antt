-- ===== src/Launcher/Blocks.antt =====
-- `replaced_block` of launcher_modes.py without indices: the first run of lines with the prefix is
-- replaced.
use mathlib.Core.Option
use pyntara.Shared.{
  ℕ, suc, ◌+◌, ◌≡◌, refl, ap, ◌∙◌, inl, inr, Option, none, some, List, [], ◌∷◌, ◌++◌, take, arith,
  Bool-cases, if◌then◌else◌,
}
use pyntara.Text.{Text, codes, starts_with}
use pyntara.Effects.{Answer, ok, raised}
use pyntara.Launcher.{bounds_from, block_bounds, drop, replaced_at, replaced_block}

abbrev pub found_or : (prefix what : Text) → Option (List Text) → Answer (List Text)
found_or prefix what none =
    raised (codes "the launcher carries no " ++ what ++ codes " line (" ++ prefix ++ codes "...)")
found_or prefix what (some lines) = ok lines

zero_add : (n : ℕ) → 0 + n ≡ n
zero_add n = omega arith

module _ (prefix : Text) where
  -- The lines behind the run that `lines` start with.
  unfoldable pub behind : List Text → List Text
  behind [] = []
  behind (line ∷ lines) =
      let rest = behind lines in if starts_with prefix line then rest else line ∷ lines

  unfoldable run_length : List Text → ℕ
  run_length [] = 0
  run_length (line ∷ lines) =
      let rest = run_length lines in if starts_with prefix line then suc rest else 0

  unfoldable pub swapped : (replacement : List Text) → List Text → Option (List Text)
  unfolding behind
  swapped replacement [] = none
  swapped replacement (line ∷ lines) =
      let later = swapped replacement lines in
      if starts_with prefix line
      then some (replacement ++ behind lines)
      else Option.map (λ ls. line ∷ ls) later

  drop_run : (lines : List Text) → drop (run_length lines) lines ≡ behind lines
  unfolding behind run_length
  drop_run [] = refl
  drop_run (line ∷ lines) = elim (Bool-cases (starts_with prefix line)) [
    | inl here ↦ rw (here, behind, run_length) (drop_run lines)
    | inr other ↦ rw (other, behind, run_length)
  ]

  bounds_in_run :
      (start last : ℕ) (lines : List Text)
      → bounds_from prefix (suc last) (some start) (some last) lines
        ≡ some (start, last + run_length lines)
  unfolding bounds_from run_length
  bounds_in_run start last [] = ap (λ n. some (start, n)) (omega arith)
  bounds_in_run start last (line ∷ lines) = elim (Bool-cases (starts_with prefix line)) [
    | inl here ↦
        rw (here, bounds_from, run_length)
          (bounds_in_run start (suc last) lines ∙ ap (λ n. some (start, n)) (omega arith))
    | inr other ↦ rw (other, bounds_from, run_length) (ap (λ n. some (start, n)) (omega arith))
  ]

  abbrev later_by_one : ℕ × ℕ → ℕ × ℕ
  later_by_one (start, last) = (suc start, suc last)

  bounds_behind :
      (index : ℕ) (lines : List Text)
      → bounds_from prefix (suc index) none none lines
        ≡ Option.map later_by_one (bounds_from prefix index none none lines)
  unfolding bounds_from
  bounds_behind index [] = refl
  bounds_behind index (line ∷ lines) = elim (Bool-cases (starts_with prefix line)) [
    | inl here ↦
        rw
          (
            here,
            bounds_from,
            bounds_in_run (suc index) (suc index) lines,
            bounds_in_run index index lines,
          )
          (ap (λ n. some (suc index, n)) (omega arith))
    | inr other ↦ rw (other, bounds_from) (bounds_behind (suc index) lines)
  ]

  abbrev swapped_at : (replacement lines : List Text) → ℕ × ℕ → List Text
  swapped_at replacement lines (start, last) =
      take start lines ++ replacement ++ drop (suc last) lines

  swapped_later :
      (replacement : List Text) (line : Text) (lines : List Text) (bounds : Option (ℕ × ℕ))
      → Option.map (swapped_at replacement (line ∷ lines)) (Option.map later_by_one bounds)
        ≡ Option.map (λ ls. line ∷ ls) (Option.map (swapped_at replacement lines) bounds)
  swapped_later replacement line lines none = refl
  swapped_later replacement line lines (some bounds) = refl

  swapped-bounds :
      (replacement lines : List Text)
      → Option.map (swapped_at replacement lines) (bounds_from prefix 0 none none lines)
        ≡ swapped replacement lines
  unfolding bounds_from swapped
  swapped-bounds replacement [] = refl
  swapped-bounds replacement (line ∷ lines) = elim (Bool-cases (starts_with prefix line)) [
    | inl here ↦
        rw (here, bounds_from, swapped, bounds_in_run 0 0 lines)
          (ap (λ n. some (replacement ++ drop n lines)) (zero_add (run_length lines))
            ∙ ap (λ ls. some (replacement ++ ls)) (drop_run lines))
    | inr other ↦
        rw (other, bounds_from, swapped, bounds_behind 0 lines)
          (swapped_later replacement line lines (bounds_from prefix 0 none none lines)
            ∙ ap (Option.map (λ ls. line ∷ ls)) (swapped-bounds replacement lines))
  ]

  replaced_at-swapped :
      (lines replacement : List Text) (what : Text) (bounds : Option (ℕ × ℕ))
      → replaced_at lines prefix replacement what bounds
        ≡ found_or prefix what (Option.map (swapped_at replacement lines) bounds)
  replaced_at-swapped lines replacement what none = refl
  replaced_at-swapped lines replacement what (some bounds) = refl

  -- The lines that replaced_block answers are those before the first run of lines with the prefix,
  -- the replacement, and those behind the run; without such a line it raises.
  pub replaced_block-swapped :
      (lines replacement : List Text) (what : Text)
      → replaced_block lines prefix replacement what
        ≡ found_or prefix what (swapped replacement lines)
  unfolding replaced_block block_bounds
  replaced_block-swapped lines replacement what =
      replaced_at-swapped lines replacement what (bounds_from prefix 0 none none lines)
      ∙ ap (found_or prefix what) (swapped-bounds replacement lines)

-- ===== src/Launcher/Generated.antt =====
-- The lines that launcher_modes.py generates: which prefixes they have, and that each is one line.
use pyntara.Shared.{
  ℕ, ◌≡◌, refl, inl, inr, Bool, true, false, not, none, List, [], ◌∷◌, ◌++◌, arith, all, all-append,
  Bool-cases, ◌==◌, nat_eq,
}
use pyntara.Text.{Text, codes, join, starts_with, is_line_break}
use pyntara.Text.Lines.{is_line}
use pyntara.Launcher.{
  mode_line_prefix, mode_assignment_prefix, task_line_prefix, mode_line, mode_lines, task_line,
  selecting_line,
}
use pyntara.Launcher.Apart.{AreApart}

pub starts_with-append : (prefix s : Text) → starts_with prefix (prefix ++ s) ≡ true
unfolding starts_with nat_eq
starts_with-append [] s = refl
starts_with-append (c ∷ prefix) s = ground (arith, starts_with-append prefix s)

-- Two prefixes that differ in the code after a common part.
starts_with_apart :
    (common p q : Text) (a b : ℕ) → (a == b) ≡ false → AreApart (common ++ a ∷ p) (common ++ b ∷ q)
unfolding starts_with
starts_with_apart [] p q a b h [] e = absurd (cc)
starts_with_apart [] p q a b h (c ∷ line) e = ground arith
starts_with_apart (d ∷ common) p q a b h [] e = absurd (cc)
starts_with_apart (d ∷ common) p q a b h (c ∷ line) e = elim (Bool-cases (c == d)) [
  | inl same ↦ rw same (starts_with_apart common p q a b h line (ground arith))
  | inr differs ↦ rw differs
]

abbrev common_prefix : Text
common_prefix = codes "# PYNTARA_"

pub prefixes-AreApart : AreApart mode_line_prefix task_line_prefix
unfolding nat_eq
prefixes-AreApart =
    starts_with_apart common_prefix (codes "NSTALL_MODE=" ++ 34 ∷ []) (codes "ASKS=" ++ 34 ∷ []) 73
      84 refl

-- The lines that select no mode outside a comment.
abbrev pub selects_nothing : Text → Bool
selects_nothing line = not (starts_with mode_assignment_prefix line)

pub selecting_line-all :
    (lines : List Text) → selecting_line lines ≡ none → all selects_nothing lines ≡ true
unfolding selecting_line
selecting_line-all [] h = refl
selecting_line-all (line ∷ lines) h = elim (Bool-cases (starts_with mode_assignment_prefix line)) [
  | inl selects ↦ absurd (let e = rw (selects, selecting_line) at h in cc)
  | inr passes ↦ rw passes (selecting_line-all lines (rw (passes, selecting_line) at h))
]

pub all-selecting_line :
    (lines : List Text) → all selects_nothing lines ≡ true → selecting_line lines ≡ none
unfolding selecting_line
all-selecting_line [] h = refl
all-selecting_line (line ∷ lines) h =
    let passes : starts_with mode_assignment_prefix line ≡ false = ground arith in
    rw (passes, selecting_line) (all-selecting_line lines (ground arith))

-- The generated lines.
pub mode_lines-block :
    (names : List Text) → all (starts_with mode_line_prefix) (mode_lines names) ≡ true
mode_lines-block [] = refl
mode_lines-block (name ∷ names) =
    rw (starts_with-append mode_line_prefix (name ++ 34 ∷ [])) (mode_lines-block names)

abbrev is_inside : ℕ → Bool
is_inside c = not (is_line_break c)

mode_line-line : (name : Text) → is_line name ≡ true → is_line (mode_line name) ≡ true
unfolding is_line_break nat_eq
mode_line-line name h =
    all-append is_inside mode_line_prefix (name ++ 34 ∷ []) refl
      (all-append is_inside name (34 ∷ []) h refl)

pub mode_lines-lines :
    (names : List Text) → all is_line names ≡ true → all is_line (mode_lines names) ≡ true
mode_lines-lines [] h = refl
mode_lines-lines (name ∷ names) h =
    rw (mode_line-line name (ground arith)) (mode_lines-lines names (ground arith))

join-line : (names : List Text) → all is_line names ≡ true → is_line (join (32 ∷ []) names) ≡ true
unfolding join is_line_break nat_eq
join-line [] h = refl
join-line (name ∷ []) h = ground arith
join-line (name ∷ next ∷ names) h =
    all-append is_inside name (32 ∷ join (32 ∷ []) (next ∷ names)) (ground arith) (
      all-append is_inside (32 ∷ []) (join (32 ∷ []) (next ∷ names)) refl
        (join-line (next ∷ names) (ground arith)))

pub task_line-line :
    (names : List Text) → all is_line names ≡ true → is_line (task_line names) ≡ true
unfolding is_line_break nat_eq
task_line-line names h =
    all-append is_inside task_line_prefix (join (32 ∷ []) names ++ 34 ∷ []) refl
      (all-append is_inside (join (32 ∷ []) names) (34 ∷ []) (join-line names h) refl)

pub mode_lines-selects_nothing : (names : List Text) → all selects_nothing (mode_lines names) ≡ true
unfolding starts_with nat_eq
mode_lines-selects_nothing [] = refl
mode_lines-selects_nothing (name ∷ names) = mode_lines-selects_nothing names

pub task_line-selects_nothing : (names : List Text) → selects_nothing (task_line names) ≡ true
unfolding starts_with nat_eq
task_line-selects_nothing names = refl

pub task_line_apart : (names : List Text) → starts_with mode_line_prefix (task_line names) ≡ false
unfolding starts_with nat_eq
task_line_apart names = refl

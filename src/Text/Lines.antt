-- ===== src/Text/Lines.antt =====
-- `splitlines` undoes the writing of lines, and its lines hold no line break.
use pyntara.Shared.{
  ℕ, ◌≡◌, refl, sym, ap, ◌∙◌, inl, inr, Bool, true, false, not, ◌&&◌, List, [], ◌∷◌, ◌++◌,
  append_assoc, arith, all, Bool-cases, ◌==◌, nat_eq, list_eq,
}
use pyntara.Text.{Text, is_space, is_line_break, lines_from, splitlines, join, cons_head, ends_with}

abbrev pub is_line : Text → Bool
is_line line = all (λ c. not (is_line_break c)) line

pub is_line_break→is_space : (c : ℕ) → is_space c ≡ false → is_line_break c ≡ false
unfolding is_space is_line_break
is_line_break→is_space c h = ground arith

not_13 : (c : ℕ) → is_line_break c ≡ false → (c == 13) ≡ false
unfolding is_line_break
not_13 c h = ground arith

-- A line written with its "\n" is read first.
lines_from-append :
    (line s : Text)
    → is_line line ≡ true
    → lines_from false (line ++ 10 ∷ s) ≡ line ∷ lines_from false s
unfolding lines_from
lines_from-append [] s h = unfold is_line_break nat_eq in refl
lines_from-append (c ∷ line) s h =
    let inside : is_line_break c ≡ false = ground arith in
    rw (inside, not_13 c inside, lines_from)
      (ap (cons_head c) (lines_from-append line s (ground arith)))

-- The text of some lines, each with its "\n".
abbrev pub unlines : List Text → Text
unlines [] = []
unlines (line ∷ lines) = line ++ 10 ∷ unlines lines

pub splitlines-unlines :
    (lines : List Text) → all is_line lines ≡ true → splitlines (unlines lines) ≡ lines
unfolding splitlines
splitlines-unlines [] h = refl
splitlines-unlines (line ∷ lines) h =
    lines_from-append line (unlines lines) (ground arith)
    ∙ ap (λ l. line ∷ l) (splitlines-unlines lines (ground arith))

-- "\n".join(lines) + "\n"
pub join-unlines :
    (line : Text) (lines : List Text)
    → join (10 ∷ []) (line ∷ lines) ++ 10 ∷ [] ≡ unlines (line ∷ lines)
unfolding join
join-unlines line [] = refl
join-unlines line (next ∷ lines) =
    append_assoc line (10 ∷ join (10 ∷ []) (next ∷ lines)) (10 ∷ [])
    ∙ ap (λ t. line ++ 10 ∷ t) (join-unlines next lines)

cons_head-lines :
    (c : ℕ) (lines : List Text)
    → is_line_break c ≡ false
    → all is_line lines ≡ true
    → all is_line (cons_head c lines) ≡ true
cons_head-lines c [] inside h = ground arith
cons_head-lines c (line ∷ lines) inside h = ground arith

lines_from-lines : (after_cr : Bool) (s : Text) → all is_line (lines_from after_cr s) ≡ true
unfolding lines_from
lines_from-lines after_cr [] = refl
lines_from-lines after_cr (c ∷ s) =
    let ih = lines_from-lines (c == 13) s in
    elim (Bool-cases (after_cr && c == 10)) [
      | inl joined ↦ rw (joined, lines_from) ih
      | inr apart ↦ elim (Bool-cases (is_line_break c)) [
        | inl broken ↦ rw (apart, broken, lines_from) ih
        | inr inside ↦
            rw (apart, inside, lines_from) (cons_head-lines c (lines_from (c == 13) s) inside ih)
      ]
    ]

pub splitlines-lines : (s : Text) → all is_line (splitlines s) ≡ true
unfolding splitlines
splitlines-lines s = lines_from-lines false s

ends_with-append : (c : ℕ) (s : Text) → ends_with (s ++ c ∷ []) c ≡ true
unfolding ends_with
ends_with-append c [] = ground arith
ends_with-append c (d ∷ []) = ground arith
ends_with-append c (d ∷ e ∷ s) = ends_with-append c (e ∷ s)

pub ends_with-unlines :
    (line : Text) (lines : List Text) → ends_with (unlines (line ∷ lines)) 10 ≡ true
ends_with-unlines line lines =
    ap (λ t. ends_with t 10) (sym (join-unlines line lines))
    ∙ ends_with-append 10 (join (10 ∷ []) (line ∷ lines))

abbrev pub is_filled : List Text → Bool
is_filled [] = false
is_filled (_ ∷ _) = true

pub join-filled :
    (lines : List Text) → is_filled lines ≡ true → join (10 ∷ []) lines ++ 10 ∷ [] ≡ unlines lines
join-filled [] h = absurd (cc)
join-filled (line ∷ lines) h = join-unlines line lines

pub ends_with-filled :
    (lines : List Text) → is_filled lines ≡ true → ends_with (unlines lines) 10 ≡ true
ends_with-filled [] h = absurd (cc)
ends_with-filled (line ∷ lines) h = ends_with-unlines line lines

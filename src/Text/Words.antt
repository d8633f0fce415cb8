-- ===== src/Text/Words.antt =====
-- `split`, `split_on` and `join` undo one another on the words that they make.
use pyntara.Shared.{
  ℕ, ◌≡◌, refl, sym, ap, ◌∙◌, inl, inr, Bool, true, false, not, List, [], ◌∷◌, ◌++◌, append-nil,
  arith, all, Bool-cases, ◌==◌, nat_eq, list_eq,
}
use pyntara.Text.{
  Text, is_space, lstrip, fields, split, close_word, cons_head, split_on, join, starts_with,
}

-- A word that `split` can return.
abbrev pub is_word : Text → Bool
is_word [] = false
is_word (c ∷ w) = all (λ d. not (is_space d)) (c ∷ w)

fields-append :
    (w s : Text)
    → all (λ d. not (is_space d)) w ≡ true
    → fields (w ++ s) ≡ (w ++ (fields s).0, (fields s).1)
unfolding fields
fields-append [] s h = refl
fields-append (c ∷ w) s h =
    let ih = fields-append w s (ground arith) in
    let solid : is_space c ≡ false = ground arith in
    rw (solid, fields) (ap (λ p. (c ∷ p.0, p.1)) ih)

close_word-words :
    (w : Text) (ws : List Text)
    → all (λ d. not (is_space d)) w ≡ true
    → all is_word ws ≡ true
    → all is_word (close_word w ws) ≡ true
close_word-words [] ws h k = k
close_word-words (c ∷ w) ws h k = ground arith

fields-words :
    (s : Text)
    → (all (λ d. not (is_space d)) (fields s).0 ≡ true) × (all is_word (fields s).1 ≡ true)
unfolding fields
fields-words [] = (refl, refl)
fields-words (c ∷ s) =
    let (open_word, closed) = fields-words s in
    elim (Bool-cases (is_space c)) [
      | inl blank ↦
          rw (blank, fields) (refl, close_word-words (fields s).0 (fields s).1 open_word closed)
      | inr solid ↦ rw (solid, fields) (rw (solid, open_word), closed)
    ]

-- The words of a text are words.
pub split-words : (s : Text) → all is_word (split s) ≡ true
unfolding split
split-words s =
    let (open_word, closed) = fields-words s in
    close_word-words (fields s).0 (fields s).1 open_word closed

split-append : (w s : Text) → is_word w ≡ true → split (w ++ 32 ∷ s) ≡ w ∷ split s
unfolding split
split-append [] s h = absurd (cc)
split-append (c ∷ w) s h =
    ap (λ p. close_word p.0 p.1) (fields-append (c ∷ w) (32 ∷ s) h)
    ∙ ap (λ v. (c ∷ v) ∷ split s) (append-nil w)

split_word : (w : Text) → is_word w ≡ true → split w ≡ w ∷ []
unfolding split
split_word [] h = absurd (cc)
split_word (c ∷ w) h =
    ap split (sym (append-nil (c ∷ w)))
    ∙ ap (λ p. close_word p.0 p.1) (fields-append (c ∷ w) [] h)
    ∙ ap (λ v. (c ∷ v) ∷ []) (append-nil w)

-- Words joined by a blank are split again.
pub split-join : (ws : List Text) → all is_word ws ≡ true → split (join (32 ∷ []) ws) ≡ ws
unfolding join
split-join [] h = unfold split in refl
split-join (w ∷ []) h = split_word w (ground arith)
split-join (w ∷ v ∷ ws) h =
    split-append w (join (32 ∷ []) (v ∷ ws)) (ground arith)
    ∙ ap (λ l. w ∷ l) (split-join (v ∷ ws) (ground arith))

-- A text of `split_on` without its separator.
abbrev pub lacks : ℕ → Text → Bool
lacks sep w = all (λ c. not (c == sep)) w

split_on-append :
    (sep : ℕ) (w s : Text) → lacks sep w ≡ true → split_on sep (w ++ sep ∷ s) ≡ w ∷ split_on sep s
unfolding split_on
split_on-append sep [] s h = ground arith
split_on-append sep (c ∷ w) s h =
    let other : (c == sep) ≡ false = ground arith in
    rw (other, split_on) (ap (cons_head c) (split_on-append sep w s (ground arith)))

split_on_word : (sep : ℕ) (w : Text) → lacks sep w ≡ true → split_on sep w ≡ w ∷ []
unfolding split_on
split_on_word sep [] h = refl
split_on_word sep (c ∷ w) h =
    let other : (c == sep) ≡ false = ground arith in
    rw (other, split_on) (ap (cons_head c) (split_on_word sep w (ground arith)))

-- Words without the separator, joined by it, are split again.
pub split_on-join :
    (sep : ℕ) (w : Text) (ws : List Text)
    → all (lacks sep) (w ∷ ws) ≡ true
    → split_on sep (join (sep ∷ []) (w ∷ ws)) ≡ w ∷ ws
unfolding join
split_on-join sep w [] h = split_on_word sep w (ground arith)
split_on-join sep w (v ∷ ws) h =
    split_on-append sep w (join (sep ∷ []) (v ∷ ws)) (ground arith)
    ∙ ap (λ l. w ∷ l) (split_on-join sep v ws (ground arith))

cons_head-lacks :
    (sep c : ℕ) (ws : List Text)
    → (c == sep) ≡ false
    → all (lacks sep) ws ≡ true
    → all (lacks sep) (cons_head c ws) ≡ true
cons_head-lacks sep c [] other h = ground arith
cons_head-lacks sep c (w ∷ ws) other h = ground arith

-- The words of `split_on` hold no separator.
pub split_on-lacks : (sep : ℕ) (s : Text) → all (lacks sep) (split_on sep s) ≡ true
unfolding split_on
split_on-lacks sep [] = refl
split_on-lacks sep (c ∷ s) = elim (Bool-cases (c == sep)) [
  | inl same ↦ rw (same, split_on) (split_on-lacks sep s)
  | inr other ↦
      rw (other, split_on) (cons_head-lacks sep c (split_on sep s) other (split_on-lacks sep s))
]

-- The first word of a text begins where the text does behind its leading white space.
abbrev pub head_starts_with : ℕ → List Text → Bool
head_starts_with c [] = false
head_starts_with c (w ∷ ws) = starts_with (c ∷ []) w

pub starts_with-lstrip :
    (c : ℕ) (s : Text) → starts_with (c ∷ []) (lstrip s) ≡ head_starts_with c (split s)
unfolding lstrip split starts_with
starts_with-lstrip c [] = refl
starts_with-lstrip c (d ∷ s) = elim (Bool-cases (is_space d)) [
  | inl blank ↦ rw (blank, fields, lstrip) (starts_with-lstrip c s)
  | inr solid ↦ rw (solid, fields, lstrip)
]

-- ===== src/Fstab/Entries.antt =====
-- A line that was written from its fields is read again as these fields.
use mathlib.Core.Option.{some-injective}
use pyntara.Shared.{
  ◌≡◌, refl, sym, ap, ◌∙◌, inl, inr, true, false, not, some, List, [], ◌∷◌, arith, all, all-append,
  Bool-cases, nat_eq, list_eq,
}
use pyntara.Text.{Text, codes, is_space, is_line_break, lstrip, split, join, starts_with}
use pyntara.Text.Words.{is_word, split-words, split-join, starts_with-lstrip, head_starts_with}
use pyntara.Text.Lines.{is_line, is_line_break→is_space}
use pyntara.Fstab.{Fields, words_of, fields_of, field_values, comment_sign}

fields_of-words : (ws : List Text) {f : Fields} → fields_of ws ≡ some f → words_of f ≡ ws
unfolding fields_of
fields_of-words [] h = absurd (cc)
fields_of-words (a ∷ []) h = absurd (cc)
fields_of-words (a ∷ b ∷ []) h = absurd (cc)
fields_of-words (a ∷ b ∷ c ∷ []) h = absurd (cc)
fields_of-words (a ∷ b ∷ c ∷ d ∷ []) h = absurd (cc)
fields_of-words (a ∷ b ∷ c ∷ d ∷ e ∷ []) h = absurd (cc)
fields_of-words (a ∷ b ∷ c ∷ d ∷ e ∷ g ∷ rest) h = ap words_of (sym (some-injective _ _ h))

fields_of-words_of : (f : Fields) → fields_of (words_of f) ≡ some f
unfolding fields_of
fields_of-words_of f = refl

-- A line of fields: it is no comment, and its words are the fields.
pub record IsEntry (line : Text) (f : Fields) : Type 0 where
  pub no_comment : head_starts_with comment_sign (words_of f) ≡ false
  pub words : all is_word (words_of f) ≡ true

pub field_values-IsEntry : (line : Text) {f : Fields} → field_values line ≡ some f → IsEntry line f
unfolding field_values
field_values-IsEntry line {f} h =
    elim (Bool-cases (starts_with (comment_sign ∷ []) (lstrip line))) [
      | inl comment ↦ absurd (cc (comment, h))
      | inr entry ↦
          let e = fields_of-words (split line) (rw (entry, field_values) at h) in
          record {
            no_comment =
                ap (head_starts_with comment_sign) e
                ∙ sym (starts_with-lstrip comment_sign line)
                ∙ entry;
            words = ap (all is_word) e ∙ split-words line;
          }
    ]

-- The fields of an entry, with other options.
pub field_values-join :
    (line : Text) {f : Fields} (new : Text)
    → IsEntry line f
    → is_word new ≡ true
    → field_values (join (codes " ") (words_of (record f { options = new })))
      ≡ some (record f { options = new })
unfolding field_values
field_values-join line {f} new entry fits =
    let f' : Fields = record f { options = new } in
    let words : all is_word (words_of f') ≡ true = with_new f entry.words fits in
    let read = split-join (words_of f') words in
    rw (starts_with-lstrip comment_sign (join (codes " ") (words_of f')), read, entry.no_comment)
      (fields_of-words_of f')
  where
    with_new :
        (g : Fields)
        → all is_word (words_of g) ≡ true
        → is_word new ≡ true
        → all is_word (words_of (record g { options = new })) ≡ true
    with_new g h k = ground arith

solid_line : (w : Text) → all (λ d. not (is_space d)) w ≡ true → is_line w ≡ true
solid_line [] h = refl
solid_line (c ∷ w) h =
    let inside = is_line_break→is_space c (ground arith) in ground (arith, inside, solid_line w)

word_line : (w : Text) → is_word w ≡ true → is_line w ≡ true
word_line [] h = refl
word_line (c ∷ w) h = solid_line (c ∷ w) h

blank_inside : not (is_line_break 32) ≡ true
unfolding is_line_break nat_eq
blank_inside = refl

-- Joined words make one line.
pub join-is_line : (ws : List Text) → all is_word ws ≡ true → is_line (join (codes " ") ws) ≡ true
unfolding join
join-is_line [] h = refl
join-is_line (w ∷ []) h = word_line w (ground arith)
join-is_line (w ∷ v ∷ ws) h =
    all-append (λ c. not (is_line_break c)) w (32 ∷ join (codes " ") (v ∷ ws))
      (word_line w (ground arith)) (rw blank_inside (join-is_line (v ∷ ws) (ground arith)))

-- ===== src/Fstab/Options.antt =====
-- The comma separated option list: adding, replacing and removing one option.
use mathlib.Core.List.Memᴰ
use pyntara.Shared.{
  ◌≡◌, refl, sym, ap, ◌∙◌, subst, ◌⊎◌, inl, inr, Bool, true, not, ◌&&◌, List, [], ◌∷◌, ◌++◌, Memᴰ,
  arith, filter, any, all, any→Memᴰ, all-append, filter-append, append-nil, Bool-cases, nat_eq,
  list_eq,
}
use pyntara.Text.{is_nonempty, Text, codes, split_on, join}
use pyntara.Text.Words.{lacks, split_on-join, split_on-lacks}
use pyntara.Fstab.{name_of, option_words, has_name, replace_named, with_assignment}

-- A word that an option list can hold.
abbrev pub is_option : Text → Bool
is_option word = is_nonempty word && lacks b',' word

filter-options :
    (words : List Text)
    → all (lacks b',') words ≡ true
    → all is_option (filter is_nonempty words) ≡ true
filter-options [] h = refl
filter-options (w ∷ words) h = ground (arith, filter-options words)

pub option_words-options : (o : Text) → all is_option (option_words o) ≡ true
unfolding option_words
option_words-options o = filter-options (split_on b',' o) (split_on-lacks b',' o)

filter_of_options :
    (words : List Text) → all is_option words ≡ true → filter is_nonempty words ≡ words
filter_of_options [] h = refl
filter_of_options (w ∷ words) h = ground (arith, filter_of_options words)

lacks_of_options : (words : List Text) → all is_option words ≡ true → all (lacks b',') words ≡ true
lacks_of_options [] h = refl
lacks_of_options (w ∷ words) h = ground (arith, lacks_of_options words)

-- Options that are joined are read again.
pub option_words-join :
    (words : List Text) → all is_option words ≡ true → option_words (join (codes ",") words) ≡ words
unfolding option_words
option_words-join [] h = unfold join split_on in refl
option_words-join (w ∷ words) h =
    ap (filter is_nonempty) (split_on-join b',' w words (lacks_of_options (w ∷ words) h))
    ∙ filter_of_options (w ∷ words) h

module _ (assignment : Text) (fits : is_option assignment ≡ true) where
  pub named_self : has_name (name_of assignment) assignment ≡ true
  named_self = ground arith

  replace_named-options :
      (words : List Text)
      → all is_option words ≡ true
      → all is_option (replace_named assignment words) ≡ true
  unfolding replace_named
  replace_named-options [] h = refl
  replace_named-options (w ∷ words) h =
      let ih = replace_named-options words (ground arith) in
      elim (Bool-cases (has_name (name_of assignment) w)) [
        | inl same ↦ rw same (ground (arith, ih, fits))
        | inr other ↦ rw other (ground (arith, ih))
      ]

  -- The options of another name stay, in their order.
  replace_named-others :
      (words : List Text)
      → filter (λ w. not (has_name (name_of assignment) w)) (replace_named assignment words)
        ≡ filter (λ w. not (has_name (name_of assignment) w)) words
  unfolding replace_named
  replace_named-others [] = refl
  replace_named-others (w ∷ words) = elim (Bool-cases (has_name (name_of assignment) w)) [
    | inl same ↦ rw (same, named_self) (replace_named-others words)
    | inr other ↦ rw other (rw other (ap (λ l. w ∷ l) (replace_named-others words)))
  ]

  pub replace_named_again :
      (words : List Text)
      → replace_named assignment (replace_named assignment words) ≡ replace_named assignment words
  unfolding replace_named
  replace_named_again [] = refl
  replace_named_again (w ∷ words) = elim (Bool-cases (has_name (name_of assignment) w)) [
    | inl same ↦ rw (same, named_self) (ap (λ l. assignment ∷ l) (replace_named_again words))
    | inr other ↦ rw other (rw other (ap (λ l. w ∷ l) (replace_named_again words)))
  ]

  only_assignment :
      (words : List Text) {w : Text}
      → Memᴰ w (replace_named assignment words)
      → has_name (name_of assignment) w ≡ true
      → w ≡ assignment
  unfolding replace_named
  only_assignment [] m h = absurd (Memᴰ.not-nil m)
  only_assignment (v ∷ words) {w} m h = elim (Bool-cases (has_name (name_of assignment) v)) [
    | inl same ↦ elim (Memᴰ.cases_cons {l = replace_named assignment words} (rw same at m)) [
      | inl e ↦ e
      | inr n ↦ only_assignment words n h
    ]
    | inr other ↦ elim (Memᴰ.cases_cons {l = replace_named assignment words} (rw other at m)) [
      | inl e ↦ absurd (cc (h, other, ap (has_name (name_of assignment)) e))
      | inr n ↦ only_assignment words n h
    ]
  ]

  -- The answer is `replaced`, which names the option, or `replaced` with the assignment behind it.
  pub with_assignment_cases :
      (words : List Text)
      → ((any (has_name (name_of assignment)) (replace_named assignment words) ≡ true)
          × (with_assignment assignment words ≡ replace_named assignment words))
        ⊎ (with_assignment assignment words ≡ replace_named assignment words ++ assignment ∷ [])
  unfolding with_assignment
  with_assignment_cases words =
      elim (Bool-cases (any (has_name (name_of assignment)) (replace_named assignment words))) [
        | inl there ↦ inl (there, rw there)
        | inr absent ↦ inr (rw absent)
      ]

  pub with_assignment-options :
      (words : List Text)
      → all is_option words ≡ true
      → all is_option (with_assignment assignment words) ≡ true
  with_assignment-options words h = elim (with_assignment_cases words) [
    | inl (there, e) ↦ rw e (replace_named-options words h)
    | inr e ↦ rw e (
        all-append is_option (replace_named assignment words) (assignment ∷ [])
          (replace_named-options words h) (ground arith))
  ]

  pub with_assignment-others :
      (words : List Text)
      → filter (λ w. not (has_name (name_of assignment) w)) (with_assignment assignment words)
        ≡ filter (λ w. not (has_name (name_of assignment) w)) words
  with_assignment-others words = elim (with_assignment_cases words) [
    | inl (there, e) ↦ rw e (replace_named-others words)
    | inr e ↦ rw e (
        filter-append (λ w. not (has_name (name_of assignment) w)) (replace_named assignment words)
          (assignment ∷ [])
        ∙ rw named_self (append-nil _ ∙ replace_named-others words))
  ]

  pub with_assignment-Memᴰ :
      (words : List Text) → Memᴰ assignment (with_assignment assignment words)
  with_assignment-Memᴰ words = elim (with_assignment_cases words) [
    | inl (there, e) ↦
        let (w, m, h) =
          any→Memᴰ (has_name (name_of assignment)) (replace_named assignment words) there in
        rw e (Memᴰ.cast (sym (only_assignment words m h)) m)
    | inr e ↦ rw e (Memᴰ.append_right (replace_named assignment words) (Memᴰ.head refl))
  ]

  pub with_assignment-only :
      (words : List Text) {w : Text}
      → Memᴰ w (with_assignment assignment words)
      → has_name (name_of assignment) w ≡ true
      → w ≡ assignment
  with_assignment-only words {w} m h = elim (with_assignment_cases words) [
    | inl (there, e) ↦ only_assignment words (subst (Memᴰ w) e m) h
    | inr e ↦ elim (Memᴰ.append_cases (replace_named assignment words) (subst (Memᴰ w) e m)) [
      | inl r ↦ only_assignment words r h
      | inr l ↦ Memᴰ.eq_of_singleton l
    ]
  ]

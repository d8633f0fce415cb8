-- ===== src/Fstab/Assigned.antt =====
-- `options_with_assignment` and `options_without_option` as a whole.
use mathlib.Core.List.{map-append}
use pyntara.Shared.{
  ◌≡◌, ap, ◌∙◌, inl, inr, Bool, true, false, not, List, [], ◌∷◌, ◌++◌, Memᴰ, arith, filter, any,
  any-append_right, ◌==◌, nat_eq, list_eq,
}
use pyntara.Text.{Text, codes, join}
use pyntara.Fstab.{
  name_of, option_words, has_name, replace_named, with_assignment, or_defaults,
  options_with_assignment, options_without_option,
}
use pyntara.Fstab.Options.{
  is_option, option_words-options, option_words-join, named_self, replace_named_again,
  with_assignment_cases, with_assignment-options, with_assignment-others, with_assignment-Memᴰ,
  with_assignment-only,
}

settled : (new old : Text) → new ≡ old → ◌≡◌ {A = Text × Bool} (new, not (new == old)) (old, false)
settled new old e = ground arith

options_with_assignment_settles :
    (options_text assignment : Text)
    → join (codes ",") (with_assignment assignment (option_words options_text)) ≡ options_text
    → options_with_assignment options_text assignment ≡ (options_text, false)
unfolding options_with_assignment
options_with_assignment_settles options_text assignment same = settled _ options_text same

module _ (assignment : Text) (fits : is_option assignment ≡ true) where
  replace_named-append :
      (words : List Text)
      → replace_named assignment (replace_named assignment words ++ assignment ∷ [])
        ≡ replace_named assignment words ++ assignment ∷ []
  unfolding replace_named
  replace_named-append words =
      map-append _ (replace_named assignment words) (assignment ∷ [])
      ∙ rw (named_self assignment fits)
          (ap (λ l. l ++ assignment ∷ []) (replace_named_again assignment fits words))

  named_last :
      (words : List Text)
      → any (has_name (name_of assignment)) (replace_named assignment words ++ assignment ∷ [])
        ≡ true
  named_last words =
      any-append_right (has_name (name_of assignment)) (replace_named assignment words)
        (assignment ∷ []) (rw (named_self assignment fits))

  with_assignment_again :
      (words : List Text)
      → with_assignment assignment (with_assignment assignment words)
        ≡ with_assignment assignment words
  with_assignment_again words = elim (with_assignment_cases assignment fits words) [
    | inl (there, e) ↦
        rw e (unfold with_assignment in rw (replace_named_again assignment fits words, there))
    | inr e ↦ rw e (unfold with_assignment in rw (replace_named-append words, named_last words))
  ]

  option_words-with :
      (options_text : Text)
      → option_words (options_with_assignment options_text assignment).0
        ≡ with_assignment assignment (option_words options_text)
  unfolding options_with_assignment
  option_words-with options_text =
      option_words-join (with_assignment assignment (option_words options_text)) (
        with_assignment-options assignment fits (option_words options_text)
          (option_words-options options_text))

  -- After `options_with_assignment` with an assignment that is not empty and holds no comma, the
  -- list holds the assignment, holds no other option of its name, and holds the options of other
  -- names as before, in their order.
  pub options_with_assignment_words :
      (options_text : Text)
      → Memᴰ assignment (option_words (options_with_assignment options_text assignment).0)
        × ((w : Text)
            → Memᴰ w (option_words (options_with_assignment options_text assignment).0)
            → has_name (name_of assignment) w ≡ true
            → w ≡ assignment)
        × (filter
              (λ w. not (has_name (name_of assignment) w))
              (option_words (options_with_assignment options_text assignment).0)
            ≡ filter (λ w. not (has_name (name_of assignment) w)) (option_words options_text))
  options_with_assignment_words options_text =
      let words = option_words options_text in
      rw (option_words-with options_text) (
        with_assignment-Memᴰ assignment fits words,
        λ w m h. with_assignment-only assignment fits words m h,
        with_assignment-others assignment fits words,
      )

  -- A second call with the same assignment, not empty and without a comma, changes nothing and says
  -- so.
  pub options_with_assignment_again :
      (options_text : Text)
      → options_with_assignment (options_with_assignment options_text assignment).0 assignment
        ≡ ((options_with_assignment options_text assignment).0, false)
  options_with_assignment_again options_text =
      let same : join (codes ",") (
            with_assignment assignment
              (option_words (options_with_assignment options_text assignment).0))
          ≡ (options_with_assignment options_text assignment).0 =
        ap (λ ws. join (codes ",") (with_assignment assignment ws)) (option_words-with options_text)
        ∙ (unfold options_with_assignment in
            ap (join (codes ",")) (with_assignment_again (option_words options_text))) in
      options_with_assignment_settles (options_with_assignment options_text assignment).0 assignment
        same

  -- Removing an option gives the same list whether it was set before or not, when the assignment
  -- that set it is not empty and holds no comma.
  options_without-with :
      (options_text : Text)
      → (options_without_option
          (options_with_assignment options_text assignment).0
          (name_of assignment)).0
        ≡ (options_without_option options_text (name_of assignment)).0
  unfolding options_without_option
  options_without-with options_text =
      ap
        (λ ws.
          or_defaults (join (codes ",") (filter (λ w. not (has_name (name_of assignment) w)) ws)))
        (option_words-with options_text)
      ∙ ap (λ ws. or_defaults (join (codes ",") ws))
          (with_assignment-others assignment fits (option_words options_text))

-- ===== src/Fstab/Entry.antt =====
-- `text_with_option` on a whole fstab: the entry it changes, the entries it keeps, a second call.
use mathlib.Core.Option
use mathlib.Core.List.Memᴰ
use pyntara.Shared.{
  ℕ, ◌≡◌, refl, sym, ap, ◌∙◌, inl, inr, Bool, true, false, not, Option, none, some, List, [], ◌∷◌,
  arith, all, all-append, filter, Memᴰ, Bool-cases, ◌==◌, nat_eq, list_eq, if◌then◌else◌,
}
use pyntara.Text.{is_nonempty, Text, codes, is_space, cons_head, split_on, join}
use pyntara.Text.Words.{is_word}
use pyntara.Fstab.{
  Fields, option_words, with_assignment, replace_named, options_with_assignment,
  spec_of_mount_point, text_with_option,
}
use pyntara.Fstab.Options.{
  is_option, with_assignment_cases, with_assignment-Memᴰ, with_assignment-options,
  option_words-options,
}
use pyntara.Fstab.Assigned.{options_with_assignment_again}
use pyntara.Fstab.Rewritten.{entry_of, IsSettling}
use pyntara.Fstab.Loop.{updated}
use pyntara.Fstab.Changed.{
  spec_of_mount_point-entry_of, entry_of-changed, text_with_transformed_options_again,
}

abbrev pub is_solid : Text → Bool
is_solid w = all (λ d. not (is_space d)) w

cons_head-solid :
    (c : ℕ) (ws : List Text)
    → is_space c ≡ false
    → all is_solid ws ≡ true
    → all is_solid (cons_head c ws) ≡ true
cons_head-solid c [] inside h = ground arith
cons_head-solid c (w ∷ ws) inside h = ground arith

split_on-solid : (sep : ℕ) (s : Text) → is_solid s ≡ true → all is_solid (split_on sep s) ≡ true
unfolding split_on
split_on-solid sep [] h = refl
split_on-solid sep (c ∷ s) h =
    let ih = split_on-solid sep s (ground arith) in
    let inside : is_space c ≡ false = ground arith in
    elim (Bool-cases (c == sep)) [
      | inl here ↦ rw (here, split_on) ih
      | inr other ↦ rw (other, split_on) (cons_head-solid c (split_on sep s) inside ih)
    ]

filter-solid :
    (p : Text → Bool) (ws : List Text) → all is_solid ws ≡ true → all is_solid (filter p ws) ≡ true
filter-solid p [] h = refl
filter-solid p (w ∷ ws) h = ground (arith, filter-solid p ws)

comma_solid : is_space 44 ≡ false
unfolding is_space nat_eq
comma_solid = refl

join-solid : (ws : List Text) → all is_solid ws ≡ true → is_solid (join (codes ",") ws) ≡ true
unfolding join
join-solid [] h = refl
join-solid (w ∷ []) h = ground arith
join-solid (w ∷ v ∷ ws) h =
    all-append (λ d. not (is_space d)) w (44 ∷ join (codes ",") (v ∷ ws)) (ground arith)
      (rw comma_solid (join-solid (v ∷ ws) (ground arith)))

join-nonempty :
    (w : Text) (ws : List Text)
    → is_nonempty w ≡ true
    → is_nonempty (join (codes ",") (w ∷ ws)) ≡ true
unfolding join
join-nonempty w [] h = h
join-nonempty [] (v ∷ ws) h = absurd (cc)
join-nonempty (c ∷ w) (v ∷ ws) h = refl

join-is_word :
    {w : Text} (ws : List Text)
    → Memᴰ w ws
    → all is_option ws ≡ true
    → all is_solid ws ≡ true
    → is_word (join (codes ",") ws) ≡ true
join-is_word [] m h k = absurd (Memᴰ.not-nil m)
join-is_word (v ∷ ws) m h k =
    word (join (codes ",") (v ∷ ws)) (join-nonempty v ws (ground arith)) (join-solid (v ∷ ws) k)
  where
    word : (t : Text) → is_nonempty t ≡ true → is_solid t ≡ true → is_word t ≡ true
    word [] h k = absurd (cc)
    word (c ∷ t) h k = k

-- The fields of an entry, with the assignment among its options.
abbrev pub with_option : Text → Fields → Fields
with_option assignment f = record f { options = (options_with_assignment f.options assignment).0 }

module _ (assignment : Text) (fits : is_option assignment ≡ true)
    (solid : is_solid assignment ≡ true) where
  replace_named-solid :
      (ws : List Text) → all is_solid ws ≡ true → all is_solid (replace_named assignment ws) ≡ true
  unfolding replace_named
  replace_named-solid [] h = refl
  replace_named-solid (w ∷ ws) h = ground (arith, replace_named-solid ws, solid)

  with_assignment-solid :
      (ws : List Text)
      → all is_solid ws ≡ true
      → all is_solid (with_assignment assignment ws) ≡ true
  with_assignment-solid ws h = elim (with_assignment_cases assignment fits ws) [
    | inl (there, e) ↦ rw e (replace_named-solid ws h)
    | inr e ↦ rw e (
        all-append is_solid (replace_named assignment ws) (assignment ∷ [])
          (replace_named-solid ws h) (ground (arith, solid)))
  ]

  same_options : (new old : Text) → not (new == old) ≡ false → new ≡ old
  same_options new old h = ground arith

  keeps_word :
      (o : Text) → is_word o ≡ true → is_word (options_with_assignment o assignment).0 ≡ true
  unfolding options_with_assignment option_words
  keeps_word o h =
      let ws = filter is_nonempty (split_on b',' o) in
      join-is_word (with_assignment assignment ws) (with_assignment-Memᴰ assignment fits ws)
        (with_assignment-options assignment fits ws (option_words-options o))
        (with_assignment-solid ws
          (filter-solid is_nonempty (split_on b',' o) (split_on-solid b',' o (word-solid o h))))
    where
      word-solid : (t : Text) → is_word t ≡ true → is_solid t ≡ true
      word-solid [] h = refl
      word-solid (c ∷ t) h = h

  same_unless_changed :
      (o : Text)
      → (options_with_assignment o assignment).1 ≡ false
      → (options_with_assignment o assignment).0 ≡ o
  unfolding options_with_assignment
  same_unless_changed o h = same_options _ o h

  settling : IsSettling (λ o. options_with_assignment o assignment)
  settling = record {
    keeps_word = keeps_word;
    settles = λ o. options_with_assignment_again assignment fits o;
    same_unless_changed = same_unless_changed;
  }

  device-updated :
      (mount_point other : Text) (e : Option Fields)
      → Option.map
          (λ f. f.device)
          (updated mount_point (λ o. options_with_assignment o assignment) settling other e)
        ≡ Option.map (λ f. f.device) e
  device-updated mount_point other none = ground arith
  device-updated mount_point other (some f) = ground arith

  -- When an assignment that is not empty and holds neither a comma nor white space is set on the
  -- line of a mount point and the answer is that the text changed: that line's entry has the new option list and all its other fields as before, the
  -- entry of every other mount point is as before, no device of any mount point changed, and the
  -- same call on the new text changes nothing.
  pub text_with_option_entries :
      (text mount_point : Text)
      → (text_with_option text mount_point assignment).1 ≡ true
      → ((other : Text)
          → (entry_of (text_with_option text mount_point assignment).0 other ≡ (
              if mount_point == other
              then Option.map (with_option assignment) (entry_of text other)
              else entry_of text other))
            × (spec_of_mount_point (text_with_option text mount_point assignment).0 other
                ≡ spec_of_mount_point text other))
        × (text_with_option (text_with_option text mount_point assignment).0 mount_point assignment
            ≡ ((text_with_option text mount_point assignment).0, false))
  unfolding text_with_option
  text_with_option_entries text mount_point changed =
      let transform : Text → Text × Bool = λ o. options_with_assignment o assignment in
      let after : (other : Text) → _ =
        entry_of-changed mount_point transform settling text changed in
      (
        λ other. (
          after other,
          spec_of_mount_point-entry_of _ other
              ∙ ap (Option.map (λ f. f.device)) (after other)
              ∙ device-updated mount_point other (entry_of text other)
              ∙ sym (spec_of_mount_point-entry_of text other),
        ),
        text_with_transformed_options_again mount_point transform settling text changed,
      )

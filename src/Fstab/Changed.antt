-- ===== src/Fstab/Changed.antt =====
-- The whole text of an fstab after the options of one mount point changed.
use mathlib.Core.Option
use pyntara.Shared.{
  ◌≡◌, refl, sym, ap, ◌∙◌, inl, inr, Bool, true, false, ◌||◌, List, [], ◌∷◌, arith, Bool-cases,
  Option-cases, ◌==◌, nat_eq, list_eq,
}
use pyntara.Text.{Text, splitlines, ends_with}
use pyntara.Text.Lines.{
  is_filled, join-filled, ends_with-filled, unlines, splitlines-unlines, splitlines-lines,
}
use pyntara.Fstab.{
  spec_in, spec_of_mount_point, field_values, transform_lines, text_with_transformed_options,
}
use pyntara.Fstab.Rewritten.{entry_in, entry_of, IsSettling}
use pyntara.Fstab.Loop.{transform-lines, transform_again, updated, entry_in-transform}

-- `spec_of_mount_point` is the device of the entry.
spec_in-entry_in :
    (lines : List Text) (mount_point : Text)
    → spec_in lines mount_point ≡ Option.map (λ f. f.device) (entry_in lines mount_point)
unfolding spec_in entry_in
spec_in-entry_in [] mount_point = refl
spec_in-entry_in (line ∷ lines) mount_point =
    let ih = spec_in-entry_in lines mount_point in
    elim (Option-cases (field_values line)) [
      | inl e ↦ rw (e, spec_in) ih
      | inr (f, e) ↦ elim (Bool-cases (f.mount_point == mount_point)) [
        | inl here ↦ rw (e, here, spec_in)
        | inr other ↦ rw (e, other, spec_in) ih
      ]
    ]

pub spec_of_mount_point-entry_of :
    (text mount_point : Text)
    → spec_of_mount_point text mount_point ≡ Option.map (λ f. f.device) (entry_of text mount_point)
unfolding spec_of_mount_point entry_of
spec_of_mount_point-entry_of text mount_point = spec_in-entry_in (splitlines text) mount_point

module _ (mount_point : Text) (transform : Text → Text × Bool) where
  -- A change shows that there is a line.
  changed_lines :
      (lines : List Text)
      → (transform_lines mount_point transform lines).1 ≡ true
      → is_filled (transform_lines mount_point transform lines).0 ≡ true
  unfolding transform_lines
  changed_lines [] changed = absurd (cc)
  changed_lines (line ∷ lines) changed = elim (Option-cases (field_values line)) [
    | inl e ↦ rw (e, transform_lines)
    | inr (f, e) ↦ elim (Bool-cases (f.mount_point == mount_point)) [
      | inl here ↦ rw (e, here, transform_lines)
      | inr other ↦ rw (e, other, transform_lines)
    ]
  ]

  -- A text whose lines change is written with all its lines ended.
  changed_text :
      (text : Text) (lines : List Text) (changed : Bool)
      → transform_lines mount_point transform (splitlines text) ≡ (lines, changed)
      → is_filled lines ≡ true
      → ends_with text 10 || changed ≡ true
      → text_with_transformed_options text mount_point transform ≡ (unlines lines, changed)
  unfolding text_with_transformed_options
  changed_text text lines changed e filled ended = rw (e, ended, join-filled lines filled)

  was_changed :
      (text : Text)
      → (text_with_transformed_options text mount_point transform).1
        ≡ (transform_lines mount_point transform (splitlines text)).1
  unfolding text_with_transformed_options
  was_changed text = refl

  module _ (settling : IsSettling transform) (text : Text)
      (changed : (text_with_transformed_options text mount_point transform).1 ≡ true) where
    abbrev new_lines : List Text
    new_lines = (transform_lines mount_point transform (splitlines text)).0

    new_filled : is_filled new_lines ≡ true
    new_filled = changed_lines (splitlines text) (sym (was_changed text) ∙ changed)

    new_text : text_with_transformed_options text mount_point transform ≡ (unlines new_lines, true)
    new_text =
        changed_text text new_lines true
          (ap (λ b. (new_lines, b)) (sym (was_changed text) ∙ changed)) new_filled (ground arith)

    new_splitlines : splitlines (unlines new_lines) ≡ new_lines
    new_splitlines =
        splitlines-unlines new_lines
          (transform-lines mount_point transform settling (splitlines text) (splitlines-lines text))

    -- What the changed text says of every mount point.
    pub entry_of-changed :
        (other : Text)
        → entry_of (text_with_transformed_options text mount_point transform).0 other
          ≡ updated mount_point transform settling other (entry_of text other)
    unfolding entry_of
    entry_of-changed other =
        rw (new_text, new_splitlines)
          (entry_in-transform mount_point transform settling (splitlines text) other)

    -- A second change of a changed text changes nothing.
    pub text_with_transformed_options_again :
        text_with_transformed_options
          (text_with_transformed_options text mount_point transform).0
          mount_point
          transform
        ≡ ((text_with_transformed_options text mount_point transform).0, false)
    text_with_transformed_options_again = rw new_text (
        changed_text (unlines new_lines) new_lines false
          (ap (transform_lines mount_point transform) new_splitlines
            ∙ transform_again mount_point transform settling (splitlines text))
          new_filled (ground (arith, ends_with-filled new_lines new_filled)))

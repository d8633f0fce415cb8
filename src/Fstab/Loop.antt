-- ===== src/Fstab/Loop.antt =====
-- The loop over the lines of an fstab.
use mathlib.Core.Option
use pyntara.Shared.{
  ◌≡◌, refl, ap, ◌∙◌, subst, ◌⊎◌, inl, inr, Bool, true, false, Option, none, some, List, [], ◌∷◌,
  arith, all, Bool-cases, Option-cases, ◌==◌, nat_eq, list_eq, if◌then◌else◌,
}
use pyntara.Text.{Text}
use pyntara.Text.Lines.{is_line}
use pyntara.Fstab.{Fields, field_values, line_with_options, transform_lines}
use pyntara.Fstab.Rewritten.{
  entry_step, entry_in, IsSettling, with_new, field_values-line_with_options,
  line_with_options-is_line,
}

module _ (mount_point : Text) (transform : Text → Text × Bool) where
  -- A line that the loop passes over.
  abbrev IsPassed : Option Fields → Type 0
  IsPassed none = Unit
  IsPassed (some f) = (f.mount_point == mount_point) ≡ false

  line_cases :
      (line : Text)
      → IsPassed (field_values line)
        ⊎ ((f : Fields) × (field_values line ≡ some f) × ((f.mount_point == mount_point) ≡ true))
  line_cases line = elim (Option-cases (field_values line)) [
    | inl e ↦ inl (rw e tt)
    | inr (f, e) ↦ elim (Bool-cases (f.mount_point == mount_point)) [
      | inl here ↦ inr (f, e, here)
      | inr other ↦ inl (rw e other)
    ]
  ]

  transform-passed :
      (line : Text) (lines : List Text)
      → IsPassed (field_values line)
      → transform_lines mount_point transform (line ∷ lines) ≡ (
        line ∷ (transform_lines mount_point transform lines).0,
        (transform_lines mount_point transform lines).1,
      )
  unfolding transform_lines
  transform-passed line lines p = elim (Option-cases (field_values line)) [
    | inl e ↦ rw (e, transform_lines)
    | inr (f, e) ↦
        let other : (f.mount_point == mount_point) ≡ false = subst IsPassed e p in
        rw (e, other, transform_lines)
  ]

  transform-hit :
      (line : Text) (lines : List Text) (f : Fields)
      → field_values line ≡ some f
      → (f.mount_point == mount_point) ≡ true
      → transform_lines mount_point transform (line ∷ lines)
        ≡ ((line_with_options transform line f).0 ∷ lines, (line_with_options transform line f).1)
  unfolding transform_lines
  transform-hit line lines f e here = rw (e, here, transform_lines)

  module _ (settling : IsSettling transform) where
    pub transform-lines :
        (lines : List Text)
        → all is_line lines ≡ true
        → all is_line (transform_lines mount_point transform lines).0 ≡ true
    transform-lines [] h = unfold transform_lines in refl
    transform-lines (line ∷ lines) h = elim (line_cases line) [
      | inl p ↦
          let ih = transform-lines lines (ground arith) in
          rw (transform-passed line lines p) (ground (arith, ih))
      | inr (f, e, here) ↦
          let new =
            line_with_options-is_line mount_point transform settling line e (ground arith) in
          rw (transform-hit line lines f e here) (ground (arith, new))
    ]

    -- A second loop changes nothing.
    pub transform_again :
        (lines : List Text)
        → transform_lines mount_point transform (transform_lines mount_point transform lines).0
          ≡ ((transform_lines mount_point transform lines).0, false)
    transform_again [] = unfold transform_lines in refl
    transform_again (line ∷ lines) = elim (line_cases line) [
      | inl p ↦ rw (transform-passed line lines p) (
          transform-passed line (transform_lines mount_point transform lines).0 p
          ∙ ap (λ r. (line ∷ r.0, r.1)) (transform_again lines))
      | inr (f, e, here) ↦
          let (read, still) =
            field_values-line_with_options mount_point transform settling line e in
          rw (transform-hit line lines f e here) (
            transform-hit (line_with_options transform line f).0 lines
              (with_new mount_point transform settling f) read here
            ∙ ap (λ r. (r.0 ∷ lines, r.1)) still)
    ]

    -- What is read of another mount point stays, and of this one the options are the new ones.
    abbrev pub updated : Text → Option Fields → Option Fields
    updated other e =
        if mount_point == other then Option.map (with_new mount_point transform settling) e else e

    entry_step-passed :
        (o : Option Fields) (other : Text) (rest rest' : Option Fields)
        → IsPassed o
        → rest' ≡ updated other rest
        → entry_step o other rest' ≡ updated other (entry_step o other rest)
    entry_step-passed none other rest rest' p e = e
    entry_step-passed (some f) other rest rest' p e = ground arith

    entry_step-hit :
        (f : Fields) (other : Text) (rest : Option Fields)
        → (f.mount_point == mount_point) ≡ true
        → entry_step (some (with_new mount_point transform settling f)) other rest
          ≡ updated other (entry_step (some f) other rest)
    entry_step-hit f other rest here = ground (arith)

    entry_in-cons :
        (line : Text) (lines : List Text) (other : Text)
        → entry_in (line ∷ lines) other
          ≡ entry_step (field_values line) other (entry_in lines other)
    unfolding entry_in
    entry_in-cons line lines other = refl

    -- What the lines say of every mount point after the loop.
    pub entry_in-transform :
        (lines : List Text) (other : Text)
        → entry_in (transform_lines mount_point transform lines).0 other
          ≡ updated other (entry_in lines other)
    entry_in-transform [] other = unfold entry_in transform_lines in ground arith
    entry_in-transform (line ∷ lines) other = elim (line_cases line) [
      | inl p ↦
          rw
            (
              transform-passed line lines p,
              entry_in-cons line (transform_lines mount_point transform lines).0 other,
              entry_in-cons line lines other,
            )
            (entry_step-passed (field_values line) other (entry_in lines other) _ p
              (entry_in-transform lines other))
      | inr (f, e, here) ↦
          let (read, still) =
            field_values-line_with_options mount_point transform settling line e in
          rw
            (
              transform-hit line lines f e here,
              entry_in-cons (line_with_options transform line f).0 lines other,
              entry_in-cons line lines other,
              read,
              e,
            )
            (entry_step-hit f other (entry_in lines other) here)
    ]

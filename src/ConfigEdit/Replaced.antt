-- ===== src/ConfigEdit/Replaced.antt =====
-- The lines that `replace_line_by_string` leaves.
use mathlib.Core.List.Memᴰ
use pyntara.Shared.{
  ◌≡◌, refl, sym, ap, ap₂, ◌∙◌, ◌⊎◌, inl, inr, Bool, true, false, not, ◌||◌, List, [], ◌∷◌, Memᴰ,
  arith, filter, all, Bool-cases, ◌==◌, nat_eq, list_eq,
}
use pyntara.Text.{Text, starts_with, is_part}
use pyntara.Text.Lines.{is_line}
use pyntara.ConfigEdit.{is_stopped, edit_lines}

starts_with_self : (s : Text) → starts_with s s ≡ true
unfolding starts_with
starts_with_self [] = refl
starts_with_self (c ∷ s) = ground (arith, starts_with_self s)

pub is_part_self : (s : Text) → is_part s s ≡ true
unfolding is_part
is_part_self [] = starts_with_self []
is_part_self (c ∷ s) = ground (arith, starts_with_self (c ∷ s))

module _ (needle slide stop_word : Text) where
  -- A line that the edit leaves as it is: a stopped one, or one without the needle and the slide.
  unfoldable pub is_untouched : Text → Bool
  is_untouched line = is_stopped stop_word line || not (is_part needle line || is_part slide line)

  -- A line of an edited text.
  unfoldable pub is_settled : Text → Bool
  unfolding is_untouched
  is_settled line = is_untouched line || line == slide

  module _ (open_slide : is_stopped stop_word slide ≡ false) where
    pub slide_touched : is_untouched slide ≡ false
    unfolding is_untouched
    slide_touched = ground (arith, is_part_self slide)

    abbrev edited : List Text → List Text × Bool × Bool
    edited lines = edit_lines needle slide stop_word lines

    -- What a line becomes, and what it says.
    line_cases :
        (line : Text) (lines : List Text)
        → ((is_untouched line ≡ true)
            × (edited (line ∷ lines)
                ≡ (line ∷ (edited lines).0, (edited lines).1, (edited lines).2)))
          ⊎ ((is_untouched line ≡ false)
              × (line ≡ slide)
              × (edited (line ∷ lines) ≡ (slide ∷ (edited lines).0, (edited lines).1, true)))
          ⊎ ((is_untouched line ≡ false)
              × ((line == slide) ≡ false)
              × (edited (line ∷ lines) ≡ (slide ∷ (edited lines).0, true, (edited lines).2)))
    unfolding edit_lines is_untouched
    line_cases line lines = elim (Bool-cases (is_stopped stop_word line)) [
      | inl stopped ↦ inl (ground arith, rw (stopped, edit_lines))
      | inr passed ↦ elim (Bool-cases (line == slide)) [
        | inl same ↦
            let e : line ≡ slide = ground arith in
            inr (
              inl (
                ap is_untouched e ∙ slide_touched,
                e,
                rw (passed, same, edit_lines)
                    (ap (λ l. (l ∷ (edited lines).0, (edited lines).1, true)) e),
              ))
        | inr other ↦ elim (Bool-cases (is_part needle line || is_part slide line)) [
          | inl found ↦ inr (inr (ground arith, other, rw (passed, other, found, edit_lines)))
          | inr absent ↦ inl (ground arith, rw (passed, other, absent, edit_lines))
        ]
      ]
    ]

    pub slide_settled : is_settled slide ≡ true
    unfolding is_settled
    slide_settled = ground arith

    pub settled_of_untouched : (line : Text) → is_untouched line ≡ true → is_settled line ≡ true
    unfolding is_settled
    settled_of_untouched line h = rw h

    pub edited-settled : (lines : List Text) → all is_settled (edited lines).0 ≡ true
    edited-settled [] = unfold edit_lines in refl
    edited-settled (line ∷ lines) =
        let ih = edited-settled lines in
        elim (line_cases line lines) [
          | inl (kept, e) ↦ rw (e, settled_of_untouched line kept) ih
          | inr (inl (touched, same, e)) ↦ rw (e, slide_settled) ih
          | inr (inr (touched, other, e)) ↦ rw (e, slide_settled) ih
        ]

    pub edited-untouched :
        (lines : List Text) → filter is_untouched (edited lines).0 ≡ filter is_untouched lines
    edited-untouched [] = unfold edit_lines in refl
    edited-untouched (line ∷ lines) =
        let ih = edited-untouched lines in
        elim (line_cases line lines) [
          | inl (kept, e) ↦ rw (e, kept) (ap (λ l. line ∷ l) ih)
          | inr (inl (touched, same, e)) ↦ rw (e, touched, slide_touched) ih
          | inr (inr (touched, other, e)) ↦ rw (e, touched, slide_touched) ih
        ]

    pub edited-present :
        (lines : List Text)
        → (edited lines).1 || (edited lines).2 ≡ true
        → Memᴰ slide (edited lines).0
    edited-present [] h = absurd (unfold edit_lines in cc)
    edited-present (line ∷ lines) h = elim (line_cases line lines) [
      | inl (kept, e) ↦ rw e (Memᴰ.tail (edited-present lines (rw e at h)))
      | inr (inl (touched, same, e)) ↦ rw e (Memᴰ.head refl)
      | inr (inr (touched, other, e)) ↦ rw e (Memᴰ.head refl)
    ]

    -- A loop that changes nothing leaves the lines.
    pub edited_same : (lines : List Text) → (edited lines).1 ≡ false → (edited lines).0 ≡ lines
    edited_same [] h = unfold edit_lines in refl
    edited_same (line ∷ lines) h = elim (line_cases line lines) [
      | inl (kept, e) ↦ rw e (ap (λ l. line ∷ l) (edited_same lines (rw e at h)))
      | inr (inl (touched, same, e)) ↦
          rw e (ap₂ (λ a l. a ∷ l) (sym same) (edited_same lines (rw e at h)))
      | inr (inr (touched, other, e)) ↦ absurd (cc (ap (λ r. r.1) e, h))
    ]

    touched-settled :
        (line : Text)
        → is_untouched line ≡ false
        → (line == slide) ≡ false
        → is_settled line ≡ false
    unfolding is_settled
    touched-settled line touched other = ground arith

    -- A loop over settled lines changes nothing.
    pub settled-edited :
        (lines : List Text) → all is_settled lines ≡ true → (edited lines).1 ≡ false
    settled-edited [] h = unfold edit_lines in refl
    settled-edited (line ∷ lines) h = elim (line_cases line lines) [
      | inl (kept, e) ↦ rw e (settled-edited lines (ground arith))
      | inr (inl (touched, same, e)) ↦ rw e (settled-edited lines (ground arith))
      | inr (inr (touched, other, e)) ↦ absurd (ground (arith, touched-settled line touched other))
    ]

    pub present-edited :
        (lines : List Text)
        → Memᴰ slide lines
        → all is_settled lines ≡ true
        → (edited lines).2 ≡ true
    present-edited [] m h = absurd (Memᴰ.not-nil m)
    present-edited (line ∷ lines) m h = elim (line_cases line lines) [
      | inl (kept, e) ↦ elim (Memᴰ.cases_cons m) [
        | inl same ↦ absurd (cc (ap is_untouched same, kept, slide_touched))
        | inr n ↦ rw e (present-edited lines n (ground arith))
      ]
      | inr (inl (touched, same, e)) ↦ rw e
      | inr (inr (touched, other, e)) ↦ absurd (ground (arith, touched-settled line touched other))
    ]

    pub edited-lines :
        (lines : List Text)
        → is_line slide ≡ true
        → all is_line lines ≡ true
        → all is_line (edited lines).0 ≡ true
    edited-lines [] inside h = unfold edit_lines in refl
    edited-lines (line ∷ lines) inside h =
        let ih = edited-lines lines inside (ground arith) in
        elim (line_cases line lines) [
          | inl (kept, e) ↦ rw e (ground (arith, ih))
          | inr (inl (touched, same, e)) ↦ rw (e, inside) ih
          | inr (inr (touched, other, e)) ↦ rw (e, inside) ih
        ]

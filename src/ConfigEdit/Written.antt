-- ===== src/ConfigEdit/Written.antt =====
-- `replace_line_by_string` and `add_line_to_file` on whole texts.
use mathlib.Core.List.Memᴰ
use pyntara.Shared.{
  ◌≡◌, refl, sym, ap, ◌∙◌, subst, ◌⊎◌, inl, inr, Bool, true, false, not, ◌&&◌, ◌||◌, some, List, [],
  ◌∷◌, ◌++◌, Memᴰ, arith, filter, all, filter-append, all-append, append-nil, Bool-cases, nat_eq,
  list_eq, if◌then◌else◌,
}
use pyntara.Text.{Text, splitlines, ends_with}
use pyntara.Text.Lines.{
  is_line, unlines, is_filled, join-filled, ends_with-filled, splitlines-unlines, splitlines-lines,
}
use pyntara.ConfigEdit.{is_stopped, edit_lines, added, replace_line_by_string, add_line_to_file}
use pyntara.ConfigEdit.Replaced.{
  is_untouched, is_settled, slide_touched, slide_settled, edited-settled, edited-untouched,
  edited-present, edited_same, settled-edited, present-edited, edited-lines,
}

filled_of_Memᴰ : {line : Text} (lines : List Text) → Memᴰ line lines → is_filled lines ≡ true
filled_of_Memᴰ [] m = absurd (Memᴰ.not-nil m)
filled_of_Memᴰ (l ∷ lines) m = refl

added-unchanged :
    (slide : Text) (r : List Text × Bool × Bool)
    → (added slide true r).1 ≡ false
    → (r.1 ≡ false) × (r.2 ≡ true)
unfolding added
added-unchanged slide (lines, true, present) h = absurd (cc)
added-unchanged slide (lines, false, true) h = (refl, refl)
added-unchanged slide (lines, false, false) h = absurd (cc)

add_line_to_file_changed :
    (text line comments_sign : Text) {new : Text} {changed : Bool}
    → replace_line_by_string text line line comments_sign true ≡ (new, changed)
    → add_line_to_file (some text) line comments_sign
      ≡ (changed, if changed then some new else some text)
unfolding add_line_to_file
add_line_to_file_changed text line comments_sign e =
    ap (λ (r : Text × Bool). (r.1, if r.1 then some r.0 else some text)) e

module _ (needle slide stop_word : Text) where
  -- What the new lines say: they hold the slide, each of them is settled, and the untouched ones
  -- are those of before.
  pub record IsEdited (old new : List Text) : Type 0 where
    pub present : Memᴰ slide new
    pub settled : all (is_settled needle slide stop_word) new ≡ true
    pub kept :
        filter (is_untouched needle slide stop_word) new
        ≡ filter (is_untouched needle slide stop_word) old

module _ (needle slide stop_word : Text) (open_slide : is_stopped stop_word slide ≡ false)
    (inside : is_line slide ≡ true) where
  abbrev new_lines : Bool → List Text → List Text × Bool
  new_lines add lines = added slide add (edit_lines needle slide stop_word lines)

  added_cases :
      (add : Bool) (lines : List Text)
      → (new_lines add lines).1 ≡ true
      → (((edit_lines needle slide stop_word lines).1 ≡ true)
          × ((new_lines add lines).0 ≡ (edit_lines needle slide stop_word lines).0))
        ⊎ ((new_lines add lines).0 ≡ (edit_lines needle slide stop_word lines).0 ++ slide ∷ [])
  unfolding added
  added_cases add lines h =
      let r = edit_lines needle slide stop_word lines in
      elim (Bool-cases (not r.1 && (not r.2 && add))) [
        | inl lacks ↦ inr (rw lacks)
        | inr done ↦ inl (rw done at h, rw done)
      ]

  new_lines-IsEdited :
      (add : Bool) (lines : List Text)
      → (new_lines add lines).1 ≡ true
      → IsEdited needle slide stop_word lines (new_lines add lines).0
  new_lines-IsEdited add lines h =
      let e : List Text = (edit_lines needle slide stop_word lines).0 in
      let settled = edited-settled needle slide stop_word open_slide lines in
      let kept = edited-untouched needle slide stop_word open_slide lines in
      elim (added_cases add lines h) [
        | inl (changed, same) ↦ rw same (record {
          present = edited-present needle slide stop_word open_slide lines (rw changed);
          settled = settled;
          kept = kept;
        })
        | inr more ↦ rw more (record {
          present = Memᴰ.append_right e (Memᴰ.head refl);
          settled =
              all-append (is_settled needle slide stop_word) e (slide ∷ []) settled
                (rw (slide_settled needle slide stop_word open_slide));
          kept =
              filter-append (is_untouched needle slide stop_word) e (slide ∷ [])
              ∙ rw (slide_touched needle slide stop_word open_slide) (append-nil _ ∙ kept);
        })
      ]

  new_lines-lines :
      (add : Bool) (lines : List Text)
      → (new_lines add lines).1 ≡ true
      → all is_line lines ≡ true
      → all is_line (new_lines add lines).0 ≡ true
  new_lines-lines add lines h k =
      let old = edited-lines needle slide stop_word open_slide lines inside k in
      elim (added_cases add lines h) [
        | inl (changed, same) ↦ rw same old
        | inr more ↦ rw more (
            all-append is_line (edit_lines needle slide stop_word lines).0 (slide ∷ []) old
              (rw inside))
      ]

  -- Settled lines that hold the slide stay.
  new_lines_again :
      (add : Bool) (lines : List Text)
      → Memᴰ slide lines
      → all (is_settled needle slide stop_word) lines ≡ true
      → new_lines add lines ≡ (lines, false)
  unfolding added
  new_lines_again add lines m h =
      let quiet = settled-edited needle slide stop_word open_slide lines h in
      rw (
        quiet,
        present-edited needle slide stop_word open_slide lines m h,
        edited_same needle slide stop_word open_slide lines quiet,
      )

  text_of_lines :
      (text : Text) (add : Bool) (lines : List Text) (changed : Bool)
      → new_lines add (splitlines text) ≡ (lines, changed)
      → is_filled lines ≡ true
      → ends_with text 10 || changed ≡ true
      → replace_line_by_string text needle slide stop_word add ≡ (unlines lines, changed)
  unfolding replace_line_by_string
  text_of_lines text add lines changed e filled ended = rw (e, ended, join-filled lines filled)

  was_changed :
      (text : Text) (add : Bool)
      → (replace_line_by_string text needle slide stop_word add).1
        ≡ (new_lines add (splitlines text)).1
  unfolding replace_line_by_string
  was_changed text add = refl

  -- When the slide is one line that is not stopped and the answer is that the text changed: the
  -- new text holds the slide as a line; each of its lines is the slide, is stopped, or holds
  -- neither the needle nor the slide; its lines of these last two kinds are those of the old text,
  -- in their order; and the same call on the new text changes nothing.
  pub replace_line_by_string_lines :
      (text : Text) (add : Bool)
      → (replace_line_by_string text needle slide stop_word add).1 ≡ true
      → IsEdited needle slide stop_word
          (splitlines text)
          (splitlines (replace_line_by_string text needle slide stop_word add).0)
        × (replace_line_by_string
              (replace_line_by_string text needle slide stop_word add).0
              needle
              slide
              stop_word
              add
            ≡ ((replace_line_by_string text needle slide stop_word add).0, false))
  replace_line_by_string_lines text add h =
      let changed = sym (was_changed text add) ∙ h in
      let lines : List Text = (new_lines add (splitlines text)).0 in
      let edited = new_lines-IsEdited add (splitlines text) changed in
      let filled = filled_of_Memᴰ lines edited.present in
      let new =
        text_of_lines text add lines true (ap (λ b. (lines, b)) changed) filled (ground arith) in
      let read =
        splitlines-unlines lines
          (new_lines-lines add (splitlines text) changed (splitlines-lines text)) in
      rw new (
        rw read edited,
        text_of_lines (unlines lines) add lines false
            (ap (new_lines add) read ∙ new_lines_again add lines edited.present edited.settled)
            filled (rw (ends_with-filled lines filled)),
      )

  -- A text that stays holds the slide, when a missing slide is added.
  unchanged-present :
      (text : Text)
      → (replace_line_by_string text needle slide stop_word true).1 ≡ false
      → Memᴰ slide (splitlines text)
  unchanged-present text h =
      let lines = splitlines text in
      let r = edit_lines needle slide stop_word lines in
      let (quiet, there) = added-unchanged slide r (sym (was_changed text true) ∙ h) in
      subst (Memᴰ slide) (edited_same needle slide stop_word open_slide lines quiet)
        (edited-present needle slide stop_word open_slide lines (rw (quiet, there)))

module _ (line comments_sign : Text) (open_line : is_stopped comments_sign line ≡ false)
    (inside : is_line line ≡ true) where
  -- A file that is there holds the line afterwards, when the line is one line without the comment
  -- sign, and the same call again changes nothing.
  pub add_line_to_file_holds :
      (text : Text)
      → (new : Text) × ((add_line_to_file (some text) line comments_sign).1 ≡ some new)
        × Memᴰ line (splitlines new)
        × (add_line_to_file (some new) line comments_sign ≡ (false, some new))
  add_line_to_file_holds text =
      let r : Text × Bool = replace_line_by_string text line line comments_sign true in
      elim (Bool-cases r.1) [
        | inl changed ↦
            let (edited, again) =
              replace_line_by_string_lines line line comments_sign open_line inside text true
                changed in
            let e : r ≡ (r.0, true) = ap (λ b. (r.0, b)) changed in
            (
              r.0,
              ap (λ a. a.1) (add_line_to_file_changed text line comments_sign e),
              edited.present,
              add_line_to_file_changed r.0 line comments_sign again,
            )
        | inr same ↦
            let stays =
              add_line_to_file_changed text line comments_sign (ap (λ b. (r.0, b)) same) in
            (
              text,
              ap (λ a. a.1) stays,
              unchanged-present line line comments_sign open_line inside text same,
              stays,
            )
      ]

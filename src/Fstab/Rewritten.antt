-- ===== src/Fstab/Rewritten.antt =====
-- The whole text of an fstab with the options of one mount point changed.
use pyntara.Shared.{
  ◌≡◌, refl, sym, ap, ◌∙◌, inl, inr, Bool, true, false, Option, none, some, List, [], ◌∷◌, arith,
  all, Bool-cases, ◌==◌, nat_eq, list_eq, if◌then◌else◌,
}
use pyntara.Text.{Text, splitlines}
use pyntara.Text.Words.{is_word}
use pyntara.Text.Lines.{is_line}
use pyntara.Fstab.{Fields, words_of, field_values, line_with_options}
use pyntara.Fstab.Entries.{field_values-IsEntry, field_values-join, join-is_line}

-- The fields of the first line that names a mount point.
abbrev pub entry_step : Option Fields → Text → Option Fields → Option Fields
entry_step none mount_point rest = rest
entry_step (some fields) mount_point rest =
    if fields.mount_point == mount_point then some fields else rest

unfoldable pub entry_in : List Text → Text → Option Fields
entry_in [] mount_point = none
entry_in (line ∷ lines) mount_point =
    entry_step (field_values line) mount_point (entry_in lines mount_point)

unfoldable pub entry_of : Text → Text → Option Fields
unfolding entry_in
entry_of text mount_point = entry_in (splitlines text) mount_point

-- A change of an option list that keeps it one word and that a second time changes nothing.
pub record IsSettling (transform : Text → Text × Bool) : Type 0 where
  pub keeps_word : (o : Text) → is_word o ≡ true → is_word (transform o).0 ≡ true
  pub settles : (o : Text) → transform (transform o).0 ≡ ((transform o).0, false)
  pub same_unless_changed : (o : Text) → (transform o).1 ≡ false → (transform o).0 ≡ o

options_word : (f : Fields) → all is_word (words_of f) ≡ true → is_word f.options ≡ true
options_word f h = ground arith

with_word :
    (f : Fields) (new : Text)
    → all is_word (words_of f) ≡ true
    → is_word new ≡ true
    → all is_word (words_of (record f { options = new })) ≡ true
with_word f new h k = ground arith

module _ (mount_point : Text) (transform : Text → Text × Bool)
    (settling : IsSettling transform) where
  abbrev pub with_new : Fields → Fields
  with_new f = record f { options = (transform f.options).0 }

  -- The line of the mount point reads as its fields with the new options, and stays so.
  pub field_values-line_with_options :
      (line : Text) {f : Fields}
      → field_values line ≡ some f
      → (field_values (line_with_options transform line f).0 ≡ some (with_new f))
        × (line_with_options transform (line_with_options transform line f).0 (with_new f)
            ≡ ((line_with_options transform line f).0, false))
  unfolding line_with_options
  field_values-line_with_options line {f} read =
      let entry = field_values-IsEntry line read in
      let quiet : (transform (transform f.options).0).1 ≡ false =
        ap (λ p. p.1) (settling.settles f.options) in
      elim (Bool-cases (transform f.options).1) [
        | inl changed ↦
            rw (changed, quiet)
              (
                field_values-join line (transform f.options).0 entry
                    (settling.keeps_word f.options (options_word f entry.words)),
                refl,
              )
        | inr same ↦
            rw (same, quiet)
              (
                read
                    ∙ ap (λ o. some (record f { options = o }))
                        (sym (settling.same_unless_changed f.options same)),
                refl,
              )
      ]

  pub line_with_options-is_line :
      (line : Text) {f : Fields}
      → field_values line ≡ some f
      → is_line line ≡ true
      → is_line (line_with_options transform line f).0 ≡ true
  unfolding line_with_options
  line_with_options-is_line line {f} read inside = elim (Bool-cases (transform f.options).1) [
    | inl changed ↦
        let entry = field_values-IsEntry line read in
        let fits = settling.keeps_word f.options (options_word f entry.words) in
        rw changed (join-is_line (words_of (with_new f)) (with_word f _ entry.words fits))
    | inr same ↦ rw same inside
  ]

-- ===== src/Fstab.antt =====
-- fstab.py: the lines of the machine's fstab. Texts are lists of code points.
pub mod Options
pub mod Assigned
pub mod Entries
pub mod Rewritten
pub mod Loop
pub mod Changed
pub mod Entry
mod Samples
use pyntara.Shared.{
  ℕ, zero, suc, Bool, true, false, not, ◌||◌, Option, none, some, List, [], ◌∷◌, ◌++◌, map, filter,
  any, length, leb, ltb, ◌==◌, nat_eq, list_eq, if◌then◌else◌,
}
use pyntara.Text.{
  is_nonempty, Text, codes, lstrip, split, split_on, splitlines, join, before, starts_with,
  ends_with,
}

-- COMMENT_SIGN, ENTRY_FIELD_COUNT and the positions of the fields
abbrev pub comment_sign : ℕ
comment_sign = b'#'

abbrev pub entry_field_count : ℕ
entry_field_count = 6

-- The fields of a line: four by position, and the rest, which holds at least two.
pub record Fields : Type 0 where
  pub device : Text
  pub mount_point : Text
  pub filesystem_type : Text
  pub options : Text
  pub dump : Text
  pub check : Text
  pub rest : List Text

abbrev pub words_of : Fields → List Text
words_of f = f.device ∷ f.mount_point ∷ f.filesystem_type ∷ f.options ∷ f.dump ∷ f.check ∷ f.rest

-- `if len(fields) < ENTRY_FIELD_COUNT: return None`
unfoldable pub fields_of : List Text → Option Fields
fields_of (device ∷ mount_point ∷ filesystem_type ∷ options ∷ dump ∷ check ∷ rest) = some (record {
  device = device;
  mount_point = mount_point;
  filesystem_type = filesystem_type;
  options = options;
  dump = dump;
  check = check;
  rest = rest;
})
fields_of _ = none

unfoldable pub field_values : Text → Option Fields
unfolding fields_of
field_values line =
    if starts_with (comment_sign ∷ []) (lstrip line) then none else fields_of (split line)

-- The first line among `lines` that names the mount point.
unfoldable pub spec_in : List Text → Text → Option Text
unfolding field_values
spec_in [] mount_point = none
spec_in (line ∷ lines) mount_point = elim (field_values line) [
  | none ↦ spec_in lines mount_point
  | some fields ↦
      if fields.mount_point == mount_point then some fields.device else spec_in lines mount_point
]

unfoldable pub spec_of_mount_point : Text → Text → Option Text
unfolding spec_in
spec_of_mount_point text mount_point = spec_in (splitlines text) mount_point

unfoldable pub carries_mount_point : Text → Text → Bool
unfolding spec_of_mount_point
carries_mount_point text mount_point = elim (spec_of_mount_point text mount_point) [
  | none ↦ false
  | some _ ↦ true
]

-- word.split("=", 1)[0]
abbrev pub name_of : Text → Text
name_of word = before b'=' word

-- tuple(word for word in options_text.split(",") if word)
unfoldable pub option_words : Text → List Text
option_words options_text = filter is_nonempty (split_on b',' options_text)

abbrev pub has_name : Text → Text → Bool
has_name option_name word = name_of word == option_name

unfoldable pub replace_named : Text → List Text → List Text
replace_named assignment words =
    map (λ word. if has_name (name_of assignment) word then assignment else word) words

-- The words of `options_with_assignment`.
unfoldable pub with_assignment : Text → List Text → List Text
unfolding replace_named
with_assignment assignment words =
    let replaced = replace_named assignment words in
    if any (has_name (name_of assignment)) replaced then replaced else replaced ++ assignment ∷ []

unfoldable pub options_with_assignment : Text → Text → Text × Bool
unfolding option_words with_assignment
options_with_assignment options_text assignment =
    let new_options = join (codes ",") (with_assignment assignment (option_words options_text)) in
    (new_options, not (new_options == options_text))

-- `",".join(kept) or "defaults"`
abbrev pub or_defaults : Text → Text
or_defaults [] = codes "defaults"
or_defaults (c ∷ s) = c ∷ s

unfoldable pub options_without_option : Text → Text → Text × Bool
unfolding option_words
options_without_option options_text option_name =
    let kept = filter (λ word. not (has_name option_name word)) (option_words options_text) in
    let new_options = or_defaults (join (codes ",") kept) in
    (new_options, not (new_options == options_text))

-- The change of the line whose fields are `fields`.
unfoldable pub line_with_options : (Text → Text × Bool) → Text → Fields → Text × Bool
line_with_options transform line fields =
    let (new_options, option_changed) = transform fields.options in
    if option_changed
    then (join (codes " ") (words_of (record fields { options = new_options })), true)
    else (line, false)

-- The loop over the lines: the first one that names the mount point ends it.
unfoldable pub transform_lines : Text → (Text → Text × Bool) → List Text → List Text × Bool
unfolding field_values line_with_options
transform_lines mount_point transform [] = ([], false)
transform_lines mount_point transform (line ∷ lines) =
    let (lines', changed) = transform_lines mount_point transform lines in
    elim (field_values line) [
      | none ↦ (line ∷ lines', changed)
      | some fields ↦
          if fields.mount_point == mount_point
          then (let (line', option_changed) = line_with_options transform line fields in
              (line' ∷ lines, option_changed))
          else (line ∷ lines', changed)
    ]

unfoldable pub text_with_transformed_options : Text → Text → (Text → Text × Bool) → Text × Bool
unfolding transform_lines
text_with_transformed_options text mount_point transform =
    let (lines, changed) = transform_lines mount_point transform (splitlines text) in
    let result = join (10 ∷ []) lines in
    (if ends_with text 10 || changed then result ++ 10 ∷ [] else result, changed)

unfoldable pub text_with_option : Text → Text → Text → Text × Bool
unfolding text_with_transformed_options options_with_assignment
text_with_option text mount_point assignment =
    text_with_transformed_options text mount_point (λ o. options_with_assignment o assignment)

unfoldable pub text_without_option : Text → Text → Text → Text × Bool
unfolding text_with_transformed_options options_without_option
text_without_option text mount_point option_name =
    text_with_transformed_options text mount_point (λ o. options_without_option o option_name)

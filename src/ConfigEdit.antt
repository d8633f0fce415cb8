-- ===== src/ConfigEdit.antt =====
-- config_edit.py: targeted line edits of config files. A file is its text, or none when the path
-- holds no file; reads and writes answer.
pub mod Replaced
pub mod Written
pub mod Merged
pub mod Synced
mod Samples
use pyntara.Shared.{
  Bool, true, false, not, ◌&&◌, ◌||◌, Option, none, some, List, [], ◌∷◌, ◌++◌, map, contains, ◌==◌,
  nat_eq, list_eq, if◌then◌else◌,
}
use pyntara.Text.{
  is_nonempty, Text, strip, split_on, splitlines, join, before, is_part, ends_with, sorted,
}

-- `stop_word and stop_word in line`
unfoldable pub is_stopped : Text → Text → Bool
is_stopped stop_word line = is_nonempty stop_word && is_part stop_word line

-- The loop over the lines: the new lines, `changed` and `slide_present`.
unfoldable pub edit_lines : (needle slide stop_word : Text) → List Text → List Text × Bool × Bool
unfolding is_stopped
edit_lines needle slide stop_word [] = ([], false, false)
edit_lines needle slide stop_word (line ∷ lines) =
    let (lines', changed, slide_present) = edit_lines needle slide stop_word lines in
    if is_stopped stop_word line
    then (line ∷ lines', changed, slide_present)
    else if line == slide
    then (line ∷ lines', changed, true)
    else if is_part needle line || is_part slide line
    then (slide ∷ lines', true, slide_present)
    else (line ∷ lines', changed, slide_present)

-- `if not changed and not slide_present and add_slide_if_no_needle: lines.append(slide)`
unfoldable pub added : Text → Bool → List Text × Bool × Bool → List Text × Bool
added slide add_slide_if_no_needle (lines, changed, slide_present) =
    if not changed && (not slide_present && add_slide_if_no_needle)
    then (lines ++ slide ∷ [], true)
    else (lines, changed)

unfoldable pub replace_line_by_string : (text needle slide stop_word : Text) → Bool → Text × Bool
unfolding edit_lines added
replace_line_by_string text needle slide stop_word add_slide_if_no_needle =
    let (lines, changed) =
      added slide add_slide_if_no_needle (edit_lines needle slide stop_word (splitlines text)) in
    let result = join (10 ∷ []) lines in
    (if ends_with text 10 || changed then result ++ 10 ∷ [] else result, changed)

-- The answer, and the file that is left.
unfoldable pub add_line_to_file : Option Text → (line comments_sign : Text) → Bool × Option Text
unfolding replace_line_by_string
add_line_to_file none line comments_sign = (false, none)
add_line_to_file (some text) line comments_sign =
    let (new_text, changed) = replace_line_by_string text line line comments_sign true in
    (changed, if changed then some new_text else some text)

-- line.split("=", 1)[0].strip()
unfoldable pub key_of : Text → Text
key_of line = strip (before b'=' line)

-- The loop over the lines of the file: `kept`, `has_header` and `has_section`.
unfoldable pub scan :
    (wanted_keys : List Text) (header section : Text) → List Text → List Text × Bool × Bool
unfolding key_of
scan wanted_keys header section [] = ([], false, false)
scan wanted_keys header section (line ∷ lines) =
    let (kept, has_header, has_section) = scan wanted_keys header section lines in
    if strip line == header
    then (line ∷ kept, true, has_section)
    else if strip line == section
    then (line ∷ kept, has_header, true)
    else if contains wanted_keys (key_of (strip line))
    then (kept, has_header, has_section)
    else (line ∷ kept, has_header, has_section)

unfoldable pub merged : (directives : List Text) (header section : Text) → List Text → List Text
unfolding scan
merged directives header section lines =
    let (kept, has_header, has_section) = scan (map key_of directives) header section lines in
    (if has_header then [] else header ∷ [])
    ++ ((if has_section then [] else section ∷ []) ++ (directives ++ kept))

abbrev pub lines_of : Option Text → List Text
lines_of none = []
lines_of (some text) = splitlines text

abbrev pub is_there : Option Text → Bool
is_there none = false
is_there (some _) = true

-- The answer, and the file that is left. An unchanged file is one whose lines are the merged ones,
-- in any order.
unfoldable pub sync_directives_by_key :
    Option Text → (directives : List Text) (header section : Text) → Bool × Option Text
unfolding merged sorted
sync_directives_by_key file directives header section =
    let new_lines = merged directives header section (lines_of file) in
    if is_there file && sorted (lines_of file) == sorted new_lines
    then (false, file)
    else (true, some (join (10 ∷ []) new_lines ++ 10 ∷ []))

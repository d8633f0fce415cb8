-- ===== src/ConfigEdit/Samples.antt =====
-- Small config files, and the theorems about them.
use pyntara.Shared.{
  any, ◌≡◌, refl, true, false, Option, none, some, List, [], ◌∷◌, ◌++◌, Memᴰ, map, filter, nat_eq,
  list_eq,
}
use pyntara.Text.{
  Text, codes, strip, splitlines, join, before, is_part, starts_with, ends_with, sorted,
  is_line_break,
}
use pyntara.Text.Lines.{is_line}
use pyntara.ConfigEdit.{
  is_stopped, key_of, lines_of, replace_line_by_string, add_line_to_file, sync_directives_by_key,
}
use pyntara.ConfigEdit.Written.{IsEdited, replace_line_by_string_lines, add_line_to_file_holds}
use pyntara.ConfigEdit.Merged.{is_kept, IsSyncable, top, is_header, is_section}
use pyntara.ConfigEdit.Synced.{sync_directives_by_key_lines, sync_directives_by_key_front}

program : Unit {0}
unfolding replace_line_by_string add_line_to_file sync_directives_by_key strip splitlines join
    before is_part starts_with ends_with sorted nat_eq list_eq
program = tt

abbrev slide : Text
slide = codes "PORT=22"

abbrev hash : Text
hash = codes "#"

abbrev small : Text
small = codes "# PORT=1" ++ 10 ∷ codes "PORT=2" ++ 10 ∷ codes "HOST=a"

slide_open : is_stopped hash slide ≡ false
unfolding program
slide_open = refl

slide_line : is_line slide ≡ true
unfolding program is_line_break
slide_line = refl

small_changed : (replace_line_by_string small (codes "PORT=") slide hash true).1 ≡ true
unfolding program
small_changed = refl

small_text :
    (replace_line_by_string small (codes "PORT=") slide hash true).0
    ≡ codes "# PORT=1" ++ 10 ∷ codes "PORT=22" ++ 10 ∷ codes "HOST=a" ++ 10 ∷ []
unfolding program
small_text = refl

missing_file : add_line_to_file none slide hash ≡ (false, none)
unfolding program
missing_file = refl

abbrev header : Text
header = codes "# managed"

abbrev section : Text
section = codes "[Resolve]"

abbrev directives : List Text
directives = codes "DNS=1.1.1.1" ∷ []

abbrev resolved : Option Text
resolved = some (codes "[Resolve]" ++ 10 ∷ codes "DNS=8.8.8.8" ++ 10 ∷ codes "FallbackDNS=9.9.9.9")

small_fits : IsSyncable directives header section
unfolding program is_line_break
small_fits = record {
  header_stripped = refl;
  section_stripped = refl;
  header_line = refl;
  section_line = refl;
  differ = λ e. cc;
  are_directives = refl;
}

synced : sync_directives_by_key resolved directives header section ≡ (
  true,
  some (
      codes "# managed"
      ++ 10 ∷ codes "DNS=1.1.1.1"
      ++ 10 ∷ codes "[Resolve]"
      ++ 10 ∷ codes "FallbackDNS=9.9.9.9"
      ++ 10 ∷ []),
)
unfolding program
synced = refl

replace_line_by_string_lines_example :
    IsEdited
      (codes "PORT=")
      slide
      hash
      (splitlines small)
      (splitlines (replace_line_by_string small (codes "PORT=") slide hash true).0)
    × (replace_line_by_string
          (replace_line_by_string small (codes "PORT=") slide hash true).0
          (codes "PORT=")
          slide
          hash
          true
        ≡ ((replace_line_by_string small (codes "PORT=") slide hash true).0, false))
replace_line_by_string_lines_example =
    replace_line_by_string_lines (codes "PORT=") slide hash slide_open slide_line small true
      small_changed

add_line_to_file_holds_example :
    (new : Text) × ((add_line_to_file (some small) slide hash).1 ≡ some new)
    × Memᴰ slide (splitlines new)
    × (add_line_to_file (some new) slide hash ≡ (false, some new))
add_line_to_file_holds_example = add_line_to_file_holds slide hash slide_open slide_line small

sync_directives_by_key_lines_example :
    (sorted (lines_of (sync_directives_by_key resolved directives header section).1)
      ≡ sorted (
          top directives header section (lines_of resolved)
          ++ (directives
              ++ filter (is_kept (map key_of directives) header section) (lines_of resolved))))
    × (sync_directives_by_key
          (sync_directives_by_key resolved directives header section).1
          directives
          header
          section
        ≡ (false, (sync_directives_by_key resolved directives header section).1))
sync_directives_by_key_lines_example =
    sync_directives_by_key_lines directives header section small_fits resolved

-- The header, the section and a stale directive: the new directive is written above them.
abbrev stale : Option Text
stale = some (codes "# managed" ++ 10 ∷ codes "[Resolve]" ++ 10 ∷ codes "DNS=8.8.8.8" ++ 10 ∷ [])

stale_synced : sync_directives_by_key stale directives header section ≡ (
  true,
  some (codes "DNS=1.1.1.1" ++ 10 ∷ codes "# managed" ++ 10 ∷ codes "[Resolve]" ++ 10 ∷ []),
)
unfolding program
stale_synced = refl

stale-header : any (is_header directives header section) (lines_of stale) ≡ true
unfolding program
stale-header = refl

stale-section : any (is_section directives header section) (lines_of stale) ≡ true
unfolding program
stale-section = refl

stale_changed : (sync_directives_by_key stale directives header section).0 ≡ true
unfolding program
stale_changed = refl

sync_directives_by_key_front_example :
    lines_of (sync_directives_by_key stale directives header section).1
    ≡ directives ++ filter (is_kept (map key_of directives) header section) (lines_of stale)
sync_directives_by_key_front_example =
    sync_directives_by_key_front directives header section small_fits stale stale-header
      stale-section stale_changed

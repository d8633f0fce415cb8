-- ===== src/Fstab/Samples.antt =====
-- A small fstab, and the theorems about it.
use mathlib.Core.Option
use pyntara.Shared.{
  ◌≡◌, refl, not, true, false, [], ◌∷◌, ◌++◌, Memᴰ, filter, ◌==◌, nat_eq, list_eq, if◌then◌else◌,
}
use pyntara.Text.{
  Text, codes, lstrip, split, split_on, splitlines, join, before, starts_with, ends_with, is_space,
}
use pyntara.Fstab.{
  name_of, has_name, option_words, options_with_assignment, options_without_option,
  spec_of_mount_point, text_with_option, text_without_option,
}
use pyntara.Fstab.Options.{is_option}
use pyntara.Fstab.Assigned.{options_with_assignment_words}
use pyntara.Fstab.Rewritten.{entry_of}
use pyntara.Fstab.Entry.{is_solid, with_option, text_with_option_entries}

program : Unit {0}
unfolding text_with_option text_without_option split split_on splitlines join before lstrip
    starts_with ends_with is_space nat_eq list_eq
program = tt

abbrev compress : Text
compress = codes "compress=zstd"

abbrev some_options : Text
some_options = codes "noatime,compress=lzo,,ssd"

abbrev small_fstab : Text
small_fstab =
    codes "# the disk"
    ++ 10 ∷ codes "UUID=1 / btrfs noatime 0 1"
    ++ 10 ∷ codes "UUID=2  /home ext4 defaults 0 2"

compress-is_option : is_option compress ≡ true
unfolding program
compress-is_option = refl

compress-is_solid : is_solid compress ≡ true
unfolding program
compress-is_solid = refl

options_with :
    options_with_assignment some_options compress ≡ (codes "noatime,compress=zstd,ssd", true)
unfolding program
options_with = refl

small_changed : (text_with_option small_fstab (codes "/") compress).1 ≡ true
unfolding program
small_changed = refl

small_text :
    (text_with_option small_fstab (codes "/") compress).0
    ≡ codes "# the disk"
      ++ 10 ∷ codes "UUID=1 / btrfs noatime,compress=zstd 0 1"
      ++ 10 ∷ codes "UUID=2  /home ext4 defaults 0 2"
      ++ 10 ∷ []
unfolding program
small_text = refl

-- An option list of the word "defaults" keeps it when it is removed.
defaults_stay :
    options_without_option (codes "defaults") (codes "defaults") ≡ (codes "defaults", false)
unfolding options_without_option program
defaults_stay = refl

options_with_assignment_words_example :
    Memᴰ compress (option_words (options_with_assignment some_options compress).0)
    × ((w : Text)
        → Memᴰ w (option_words (options_with_assignment some_options compress).0)
        → has_name (name_of compress) w ≡ true
        → w ≡ compress)
    × (filter
          (λ w. not (has_name (name_of compress) w))
          (option_words (options_with_assignment some_options compress).0)
        ≡ filter (λ w. not (has_name (name_of compress) w)) (option_words some_options))
options_with_assignment_words_example =
    options_with_assignment_words compress compress-is_option some_options

text_with_option_entries_example :
    ((other : Text)
      → (entry_of (text_with_option small_fstab (codes "/") compress).0 other ≡ (
          if codes "/" == other
          then Option.map (with_option compress) (entry_of small_fstab other)
          else entry_of small_fstab other))
        × (spec_of_mount_point (text_with_option small_fstab (codes "/") compress).0 other
            ≡ spec_of_mount_point small_fstab other))
    × (text_with_option (text_with_option small_fstab (codes "/") compress).0 (codes "/") compress
        ≡ ((text_with_option small_fstab (codes "/") compress).0, false))
text_with_option_entries_example =
    text_with_option_entries compress compress-is_option compress-is_solid small_fstab (codes "/")
      small_changed

-- ===== src/Launcher/Samples.antt =====
-- A small launcher, and the theorems about it.
use pyntara.Shared.{◌≡◌, refl, true, false, none, some, List, [], ◌∷◌, ◌++◌, nat_eq, list_eq}
use pyntara.Text.{Text, codes, splitlines, join, starts_with, strip}
use pyntara.Effects.{ok}
use pyntara.Launcher.{
  mode_line, selecting_line, task_line_prefix, replaced_block, rewrite_launcher,
  launcher_needs_rewrite, launcher_main,
}
use pyntara.Launcher.Blocks.{behind, swapped, replaced_block-swapped}
use pyntara.Launcher.Rewritten.{rewrite_launcher_again}

program : Unit {0}
unfolding selecting_line rewrite_launcher launcher_needs_rewrite launcher_main replaced_block
    splitlines join starts_with strip nat_eq list_eq
program = tt

abbrev small_launcher : Text
small_launcher =
    codes "#!/bin/sh"
    ++ 10 ∷ mode_line (codes "old")
    ++ 10 ∷ mode_line (codes "older")
    ++ 10 ∷ codes "# tasks"
    ++ 13 ∷ 10 ∷ task_line_prefix
    ++ codes "a b"
    ++ 34 ∷ []

abbrev small_rewritten : Text
small_rewritten =
    codes "#!/bin/sh"
    ++ 10 ∷ mode_line (codes "minimal")
    ++ 10 ∷ codes "# tasks"
    ++ 10 ∷ task_line_prefix
    ++ codes "a c"
    ++ 34 ∷ 10 ∷ []

abbrev small_tasks : List Text
small_tasks = codes "a" ∷ codes "c" ∷ []

small_rewrite :
    rewrite_launcher small_launcher (codes "minimal" ∷ []) small_tasks ≡ ok small_rewritten
unfolding program
small_rewrite = refl

small_needs : launcher_needs_rewrite small_launcher (codes "minimal" ∷ []) small_tasks ≡ true
unfolding program
small_needs = refl

main_selected : (launcher_main false (some (codes "PYNTARA_INSTALL_MODE=server"))).code ≡ 1
unfolding program
main_selected = refl

main_missing : (launcher_main true none).code ≡ 1
unfolding program
main_missing = refl

replaced_block-swapped_example :
    replaced_block
      (codes "x" ∷ codes "ab" ∷ codes "ac" ∷ codes "y" ∷ codes "ad" ∷ [])
      (codes "a")
      (codes "z" ∷ [])
      (codes "mode")
    ≡ ok (codes "x" ∷ codes "z" ∷ codes "y" ∷ codes "ad" ∷ [])
unfolding program swapped behind
replaced_block-swapped_example =
    replaced_block-swapped (codes "a")
      (codes "x" ∷ codes "ab" ∷ codes "ac" ∷ codes "y" ∷ codes "ad" ∷ []) (codes "z" ∷ [])
      (codes "mode")

rewrite_launcher_again_example :
    (rewrite_launcher small_rewritten (codes "minimal" ∷ []) small_tasks ≡ ok small_rewritten)
    × (launcher_needs_rewrite small_rewritten (codes "minimal" ∷ []) small_tasks ≡ false)
unfolding program
rewrite_launcher_again_example =
    rewrite_launcher_again (codes "minimal") [] small_tasks refl refl small_launcher small_rewritten
      small_rewrite

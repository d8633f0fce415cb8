-- ===== src/Launcher/Rewritten.antt =====
-- A launcher that `rewrite_launcher` of launcher_modes.py has written needs no second rewrite.
use pyntara.Shared.{
  ◌≡◌, refl, sym, ap, ◌∙◌, Bool, true, false, not, Option, none, some, List, [], ◌∷◌, ◌++◌, all,
  nat_eq, list_eq, ==-same,
}
use pyntara.Text.{Text, codes, splitlines, join}
use pyntara.Text.Lines.{
  is_line, is_filled, join-filled, unlines, splitlines-unlines, splitlines-lines,
}
use pyntara.Effects.{Answer, ok, raised}
use pyntara.Launcher.{
  mode_line_prefix, task_line_prefix, mode_line, mode_lines, task_line, selecting_line, and_then,
  both_replaced, rewrite_launcher, launcher_needs_rewrite,
}
use pyntara.Launcher.Blocks.{swapped, found_or, replaced_block-swapped}
use pyntara.Launcher.Settled.{
  swapped-all, IsSettled, here, there, swapped-IsSettled, IsSettled-swapped,
}
use pyntara.Launcher.Apart.{swapped_apart}
use pyntara.Launcher.Generated.{
  starts_with-append, prefixes-AreApart, selects_nothing, selecting_line-all, all-selecting_line,
  mode_lines-block, mode_lines-lines, task_line-line, mode_lines-selects_nothing,
  task_line-selects_nothing, task_line_apart,
}

found_or_ok :
    (prefix what : Text) (later : Option (List Text)) (next : List Text → Answer Text) (text : Text)
    → and_then (found_or prefix what later) next ≡ ok text
    → (lines : List Text) × (later ≡ some lines) × (next lines ≡ ok text)
found_or_ok prefix what none next text e = absurd (cc)
found_or_ok prefix what (some lines) next text e = (lines, refl, e)

IsSettled-filled :
    (prefix line : Text) (block lines : List Text)
    → IsSettled prefix (line ∷ block) lines
    → is_filled lines ≡ true
IsSettled-filled prefix line block lines (here post q h) = ap is_filled q
IsSettled-filled prefix line block lines (there first rest q h settled) = ap is_filled q

abbrev text_of : Answer Text → Text
text_of (ok text) = text
text_of (raised e) = []

module _ (mode : Text) (others task_names : List Text) where
  -- Lines that both_replaced answers unchanged.
  abbrev IsDone : List Text → Type 0
  IsDone lines =
      (swapped mode_line_prefix (mode_lines (mode ∷ others)) lines ≡ some lines)
      × (swapped task_line_prefix (task_line task_names ∷ []) lines ≡ some lines)
      × (is_filled lines ≡ true)

  both-IsDone :
      (lines once twice : List Text)
      → swapped mode_line_prefix (mode_lines (mode ∷ others)) lines ≡ some once
      → swapped task_line_prefix (task_line task_names ∷ []) once ≡ some twice
      → IsDone twice
  both-IsDone lines once twice e e' =
      let settled = swapped-IsSettled mode_line_prefix (mode_lines (mode ∷ others)) lines once e in
      let kept =
        swapped_apart mode_line_prefix task_line_prefix prefixes-AreApart (mode_line mode)
          (mode_lines others) (mode_lines-block (mode ∷ others)) (task_line task_names)
          (task_line_apart task_names) once twice settled e' in
      let tasks = swapped-IsSettled task_line_prefix (task_line task_names ∷ []) once twice e' in
      (
        IsSettled-swapped mode_line_prefix (mode_line mode) (mode_lines others)
            (mode_lines-block (mode ∷ others)) twice kept,
        IsSettled-swapped task_line_prefix (task_line task_names) []
            (rw (starts_with-append task_line_prefix (join (32 ∷ []) task_names ++ 34 ∷ []))) twice
            tasks,
        IsSettled-filled mode_line_prefix (mode_line mode) (mode_lines others) twice kept,
      )

  -- What holds of the generated lines and of the lines before holds of those after.
  both-all :
      (P : Text → Bool)
      → all P (mode_lines (mode ∷ others)) ≡ true
      → P (task_line task_names) ≡ true
      → (lines once twice : List Text) → all P lines ≡ true
      → swapped mode_line_prefix (mode_lines (mode ∷ others)) lines ≡ some once
      → swapped task_line_prefix (task_line task_names ∷ []) once ≡ some twice
      → all P twice ≡ true
  both-all P modal tasked lines once twice h e e' =
      swapped-all task_line_prefix P (task_line task_names ∷ []) (rw tasked) once twice
        (swapped-all mode_line_prefix P (mode_lines (mode ∷ others)) modal lines once h e) e'

  done_again :
      (lines : List Text)
      → IsDone lines
      → selecting_line lines ≡ none
      → both_replaced lines (mode ∷ others) task_names (selecting_line lines) ≡ ok (unlines lines)
  done_again lines (modal, tasked, filled) unselected = rw (
    unselected,
    replaced_block-swapped mode_line_prefix lines (mode_lines (mode ∷ others)) (codes "mode"),
    modal,
    replaced_block-swapped task_line_prefix lines (task_line task_names ∷ []) (codes "task list"),
    tasked,
    join-filled lines filled,
  )

  -- What a call of both_replaced that answers has replaced.
  abbrev Replaced : List Text → Option Text → Text → Type 0
  Replaced lines selected text =
      (selected ≡ none)
      × (once : List Text) × (twice : List Text) × (swapped mode_line_prefix
            (mode_lines (mode ∷ others)) lines
          ≡ some once)
      × (swapped task_line_prefix (task_line task_names ∷ []) once ≡ some twice)
      × (ok (join (10 ∷ []) twice ++ 10 ∷ []) ≡ ok text)

  both_replaced-Replaced :
      (lines : List Text) (selected : Option Text) (text : Text)
      → both_replaced lines (mode ∷ others) task_names selected ≡ ok text
      → Replaced lines selected text
  both_replaced-Replaced lines (some line) text e = absurd (cc)
  both_replaced-Replaced lines none text e =
      let (once, f, e') =
        found_or_ok mode_line_prefix (codes "mode")
          (swapped mode_line_prefix (mode_lines (mode ∷ others)) lines) _ text
          (rw
            (replaced_block-swapped mode_line_prefix lines (mode_lines (mode ∷ others))
              (codes "mode"))
            at e) in
      let (twice, f', e'') =
        found_or_ok task_line_prefix (codes "task list")
          (swapped task_line_prefix (task_line task_names ∷ []) once) _ text
          (rw
            (replaced_block-swapped task_line_prefix once (task_line task_names ∷ [])
              (codes "task list"))
            at e') in
      (refl, once, twice, f, f', e'')

module _ (mode : Text) (others task_names : List Text)
    (mode_names_are_lines : all is_line (mode ∷ others) ≡ true)
    (task_names_are_lines : all is_line task_names ≡ true) where
  rewritten_again :
      (text rewritten : Text)
      → rewrite_launcher text (mode ∷ others) task_names ≡ ok rewritten
      → rewrite_launcher rewritten (mode ∷ others) task_names ≡ ok rewritten
  unfolding rewrite_launcher
  rewritten_again text rewritten e =
      let (unselected, once, twice, f, f', e') =
        both_replaced-Replaced mode others task_names (splitlines text)
          (selecting_line (splitlines text)) rewritten e in
      let done = both-IsDone mode others task_names (splitlines text) once twice f f' in
      let are_lines =
        both-all mode others task_names is_line
          (mode_lines-lines (mode ∷ others) mode_names_are_lines)
          (task_line-line task_names task_names_are_lines) (splitlines text) once twice
          (splitlines-lines text) f f' in
      let unselecting =
        both-all mode others task_names selects_nothing (mode_lines-selects_nothing (mode ∷ others))
          (task_line-selects_nothing task_names) (splitlines text) once twice
          (selecting_line-all (splitlines text) unselected) f f' in
      let again =
        done_again mode others task_names twice done (all-selecting_line twice unselecting) in
      let is_written : ok (unlines twice) ≡ ok rewritten =
        ap ok (rw (join-filled twice done.2) refl) ∙ e' in
      let is_text : rewritten ≡ unlines twice = ap text_of (sym is_written) in
      let is_read : splitlines rewritten ≡ twice =
        ap splitlines is_text ∙ splitlines-unlines twice are_lines in
      rw is_read (again ∙ is_written)

  -- A launcher that was rewritten for some modes, at least one, and some tasks, all of them names
  -- without a line break, is what a second rewrite for them answers, and is not reported as one
  -- that differs from the catalog.
  pub rewrite_launcher_again :
      (text rewritten : Text)
      → rewrite_launcher text (mode ∷ others) task_names ≡ ok rewritten
      → (rewrite_launcher rewritten (mode ∷ others) task_names ≡ ok rewritten)
        × (launcher_needs_rewrite rewritten (mode ∷ others) task_names ≡ false)
  unfolding launcher_needs_rewrite
  rewrite_launcher_again text rewritten e =
      let again = rewritten_again text rewritten e in
      (again, rw again (ap not (==-same {A = Text} {a = rewritten} refl)))

-- ===== src/ConfigEdit/Synced.antt =====
-- The lines that `sync_directives_by_key` leaves, and a second call.
use pyntara.Shared.{
  ◌≡◌, refl, sym, ap, ◌∙◌, ◌⊎◌, inl, inr, Bool, true, false, ◌&&◌, Option, none, some, List, [],
  ◌∷◌, ◌++◌, arith, map, filter, any, all, all-append, Bool-cases, ◌==◌, nat_eq, list_eq,
}
use pyntara.Text.{Text, splitlines, join, sorted}
use pyntara.Text.Lines.{is_line, is_filled, join-filled, splitlines-unlines, splitlines-lines}
use pyntara.ConfigEdit.{key_of, merged, lines_of, is_there, sync_directives_by_key}
use pyntara.ConfigEdit.Merged.{
  is_kept, unless, is_directive, IsSyncable, kept, is_header, is_section, top, merged-parts,
  merged-header, merged_again,
}

module _ (directives : List Text) (header section : Text)
    (fits : IsSyncable directives header section) where
  lines_of_directives :
      (ds : List Text)
      → all (is_directive directives header section) ds ≡ true
      → all is_line ds ≡ true
  lines_of_directives [] h = refl
  lines_of_directives (d ∷ ds) h = ground (arith, lines_of_directives ds)

  filter-lines :
      (q : Text → Bool) (ls : List Text) → all is_line ls ≡ true → all is_line (filter q ls) ≡ true
  filter-lines q [] h = refl
  filter-lines q (l ∷ ls) h = ground (arith, filter-lines q ls)

  top-lines : (lines : List Text) → all is_line (top directives header section lines) ≡ true
  top-lines lines =
      all-append is_line (unless (any (is_header directives header section) lines) header)
        (unless (any (is_section directives header section) lines) section)
        (ground (arith, fits.header_line)) (ground (arith, fits.section_line))

  merged-lines :
      (lines : List Text)
      → all is_line lines ≡ true
      → all is_line (merged directives header section lines) ≡ true
  merged-lines lines h = rw (merged-parts directives header section fits lines) (
      all-append is_line (top directives header section lines)
        (directives ++ kept directives header section lines) (top-lines lines)
        (all-append is_line directives (kept directives header section lines)
          (lines_of_directives directives fits.are_directives)
          (filter-lines (is_kept (map key_of directives) header section) lines h)))

  file-lines : (file : Option Text) → all is_line (lines_of file) ≡ true
  file-lines none = refl
  file-lines (some text) = splitlines-lines text

  any-filled : (p : Text → Bool) (ls : List Text) → any p ls ≡ true → is_filled ls ≡ true
  any-filled p [] h = h
  any-filled p (l ∷ ls) h = refl

  -- The written text is read as the merged lines.
  written-lines :
      (file : Option Text)
      → splitlines (join (10 ∷ []) (merged directives header section (lines_of file)) ++ 10 ∷ [])
        ≡ merged directives header section (lines_of file)
  written-lines file =
      let m = merged directives header section (lines_of file) in
      ap splitlines (
        join-filled m (
          any-filled (is_header directives header section) m
            (merged-header directives header section fits (lines_of file))))
      ∙ splitlines-unlines m (merged-lines (lines_of file) (file-lines file))

  -- Either the file stays, whose lines are then the merged ones up to their order, or the merged
  -- lines are written.
  sync_cases :
      (file : Option Text)
      → ((sync_directives_by_key file directives header section ≡ (false, file))
          × (sorted (lines_of file) ≡ sorted (merged directives header section (lines_of file))))
        ⊎ (sync_directives_by_key file directives header section ≡ (
          true,
          some (join (10 ∷ []) (merged directives header section (lines_of file)) ++ 10 ∷ []),
        ))
  unfolding sync_directives_by_key
  sync_cases file =
      elim (Bool-cases (
        is_there file
        && sorted (lines_of file) == sorted (merged directives header section (lines_of file)))) [
          | inl same ↦ inl (rw same, ground arith)
          | inr other ↦ inr (rw other)
        ]

  sync-stays :
      (text : Text)
      → sorted (lines_of (some text))
        ≡ sorted (merged directives header section (lines_of (some text)))
      → sync_directives_by_key (some text) directives header section ≡ (false, some text)
  unfolding sync_directives_by_key
  sync-stays text same = ground (arith, same)

  sync-merged :
      (text : Text) (lines : List Text)
      → splitlines text ≡ merged directives header section lines
      → sync_directives_by_key (some text) directives header section ≡ (false, some text)
  sync-merged text lines read = sync-stays text (
      ap sorted read
      ∙ sym (merged_again directives header section fits lines)
      ∙ ap (λ ls. sorted (merged directives header section ls)) (sym read))

  -- For two different lines as header and section and for directives that are neither of them,
  -- each of them one line without white space around it: afterwards the lines of the file are, up to their
  -- order, the header and the section where they were missing, the directives, and those old
  -- lines that are the header, the section, or of a key that no directive has; and the same call
  -- again answers that nothing changed and leaves the file.
  pub sync_directives_by_key_lines :
      (file : Option Text)
      → (sorted (lines_of (sync_directives_by_key file directives header section).1)
          ≡ sorted (
              top directives header section (lines_of file)
              ++ (directives
                  ++ filter (is_kept (map key_of directives) header section) (lines_of file))))
        × (sync_directives_by_key
              (sync_directives_by_key file directives header section).1
              directives
              header
              section
            ≡ (false, (sync_directives_by_key file directives header section).1))
  sync_directives_by_key_lines file = elim (sync_cases file) [
    | inl (stays, same) ↦
        rw stays
          (same ∙ ap sorted (merged-parts directives header section fits (lines_of file)), stays)
    | inr written ↦ rw written (
      ap sorted (written-lines file ∙ merged-parts directives header section fits (lines_of file)),
      sync-merged _ (lines_of file) (written-lines file),
    )
  ]

  -- When a file already holds the header and the section, under the same conditions, and the call
  -- answers that it changed: the new text begins with the directives, and the header and the
  -- section stand among the kept lines behind them.
  pub sync_directives_by_key_front :
      (file : Option Text)
      → any (is_header directives header section) (lines_of file) ≡ true
      → any (is_section directives header section) (lines_of file) ≡ true
      → (sync_directives_by_key file directives header section).0 ≡ true
      → lines_of (sync_directives_by_key file directives header section).1
        ≡ directives ++ filter (is_kept (map key_of directives) header section) (lines_of file)
  sync_directives_by_key_front file has_header has_section changed = elim (sync_cases file) [
    | inl (stays, same) ↦ absurd (cc (ap (λ r. r.0) stays, changed))
    | inr written ↦
        let parts = merged-parts directives header section fits (lines_of file) in
        rw written (written-lines file ∙ parts ∙ rw (has_header, has_section))
  ]

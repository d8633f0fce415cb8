-- ===== src/ConfigEdit/Merged.antt =====
-- The merged lines of `sync_directives_by_key`, and merging them again.
use mathlib.Core.List.Memᴰ
use pyntara.Shared.{
  ◌≡◌, refl, sym, ap, ap₂, ◌∙◌, ◌≢◌, inl, inr, Bool, true, false, not, ◌&&◌, ◌||◌, List, [], ◌∷◌,
  ◌++◌, Memᴰ, arith, map, filter, any, all, contains, Memᴰ→contains, any-append_left,
  any-append_right, filter-append, append_assoc, Bool-cases, ◌==◌, nat_eq, list_eq, if◌then◌else◌,
}
use pyntara.Text.{Text, strip, sorted}
use pyntara.Text.Lines.{is_line}
use pyntara.Text.Order.{sorted_move}
use pyntara.ConfigEdit.{key_of, scan, merged}

module _ (wanted_keys : List Text) (header section : Text) where
  -- A line that stays: the header, the section, or one of another key.
  unfoldable pub is_kept : Text → Bool
  is_kept line =
      strip line == header
      || strip line == section
      || not (contains wanted_keys (key_of (strip line)))

  pub scan-kept :
      (lines : List Text) → (scan wanted_keys header section lines).0 ≡ filter is_kept lines
  unfolding scan is_kept
  scan-kept [] = refl
  scan-kept (line ∷ lines) =
      let ih = scan-kept lines in
      elim (Bool-cases (strip line == header)) [
        | inl h ↦ rw (h, scan) (ap (λ l. line ∷ l) ih)
        | inr h ↦ elim (Bool-cases (strip line == section)) [
          | inl s ↦ rw (h, s, scan) (ap (λ l. line ∷ l) ih)
          | inr s ↦ elim (Bool-cases (contains wanted_keys (key_of (strip line)))) [
            | inl k ↦ rw (h, s, k, scan) ih
            | inr k ↦ rw (h, s, k, scan) (ap (λ l. line ∷ l) ih)
          ]
        ]
      ]

  pub scan-header :
      (lines : List Text)
      → (scan wanted_keys header section lines).1 ≡ any (λ line. strip line == header) lines
  unfolding scan
  scan-header [] = refl
  scan-header (line ∷ lines) = ground (arith, scan-header lines)

  pub scan-section :
      (lines : List Text)
      → header ≢ section
      → (scan wanted_keys header section lines).2 ≡ any (λ line. strip line == section) lines
  unfolding scan
  scan-section [] differ = refl
  scan-section (line ∷ lines) differ = ground (arith, scan-section lines differ)

abbrev pub unless : Bool → Text → List Text
unless b line = if b then [] else line ∷ []

any-filter :
    (p q : Text → Bool) (xs : List Text)
    → ((x : Text) → p x ≡ true → q x ≡ true)
    → any p xs ≡ true
    → any p (filter q xs) ≡ true
any-filter p q [] h k = k
any-filter p q (x ∷ xs) h k = elim (Bool-cases (p x)) [
  | inl here ↦ rw (h x here, here)
  | inr there ↦ let ih = any-filter p q xs h (ground arith) in ground (arith, ih)
]

filter_again : (q : Text → Bool) (xs : List Text) → filter q (filter q xs) ≡ filter q xs
filter_again q [] = refl
filter_again q (x ∷ xs) = ground (arith, filter_again q xs)

module _ (directives : List Text) (header section : Text) where
  -- A directive as a config file holds it: one line without white space around it that is neither
  -- the header nor the section.
  abbrev pub is_directive : Text → Bool
  is_directive d = strip d == d && (not (d == header) && (not (d == section) && is_line d))

  -- What the call is given: two different lines without white space around them, and directives.
  pub record IsSyncable : Type 0 where
    pub header_stripped : strip header ≡ header
    pub section_stripped : strip section ≡ section
    pub header_line : is_line header ≡ true
    pub section_line : is_line section ≡ true
    pub differ : header ≢ section
    pub are_directives : all is_directive directives ≡ true

  abbrev pub kept : List Text → List Text
  kept lines = filter (is_kept (map key_of directives) header section) lines

  abbrev pub is_header : Text → Bool
  is_header line = strip line == header

  abbrev pub is_section : Text → Bool
  is_section line = strip line == section

  -- The header and the section, when they are missing.
  abbrev pub top : List Text → List Text
  top lines = unless (any is_header lines) header ++ unless (any is_section lines) section

  module _ (fits : IsSyncable) where
    pub merged-parts :
        (lines : List Text)
        → merged directives header section lines ≡ top lines ++ (directives ++ kept lines)
    unfolding merged
    merged-parts lines =
        rw
          (
            scan-kept (map key_of directives) header section lines,
            scan-header (map key_of directives) header section lines,
            scan-section (map key_of directives) header section lines fits.differ,
          )
          (sym (
            append_assoc (unless (any is_header lines) header)
              (unless (any is_section lines) section) (directives ++ kept lines)))

    kept-top : (lines : List Text) → kept (top lines) ≡ top lines
    unfolding is_kept
    kept-top lines = elim (Bool-cases (any is_header lines)) [
      | inl h ↦ elim (Bool-cases (any is_section lines)) [
        | inl s ↦ rw (h, s)
        | inr s ↦ rw (h, s) (ground (arith, fits.section_stripped))
      ]
      | inr h ↦ elim (Bool-cases (any is_section lines)) [
        | inl s ↦ rw (h, s) (ground (arith, fits.header_stripped))
        | inr s ↦ rw (h, s) (ground (arith, fits.section_stripped, fits.header_stripped))
      ]
    ]

    directive_dropped :
        (d : Text)
        → Memᴰ d directives
        → is_directive d ≡ true
        → is_kept (map key_of directives) header section d ≡ false
    unfolding is_kept
    directive_dropped d m h =
        let stripped : strip d ≡ d = ground arith in
        let wanted = Memᴰ→contains (key_of d) (Memᴰ.map key_of m) in
        rw (stripped, wanted) (ground arith)

    kept_of_directives :
        (ds : List Text)
        → ((d : Text) → Memᴰ d ds → Memᴰ d directives)
        → all is_directive ds ≡ true
        → kept ds ≡ []
    kept_of_directives [] sub h = refl
    kept_of_directives (d ∷ ds) sub h =
        rw (directive_dropped d (sub d (Memᴰ.head refl)) (ground arith))
          (kept_of_directives ds (λ x m. sub x (Memᴰ.tail m)) (ground arith))

    kept-merged :
        (lines : List Text)
        → kept (merged directives header section lines) ≡ top lines ++ kept lines
    kept-merged lines =
        let q = is_kept (map key_of directives) header section in
        rw (merged-parts lines) (
          filter-append q (top lines) (directives ++ kept lines)
          ∙ ap₂ (λ a b. a ++ b) (kept-top lines)
              (filter-append q directives (kept lines)
                ∙ ap₂ (λ a b. a ++ b) (kept_of_directives directives (λ d m. m) fits.are_directives)
                    (filter_again q lines)))

    header_kept :
        (line : Text)
        → is_header line ≡ true
        → is_kept (map key_of directives) header section line ≡ true
    unfolding is_kept
    header_kept line h = rw h

    section_kept :
        (line : Text)
        → is_section line ≡ true
        → is_kept (map key_of directives) header section line ≡ true
    unfolding is_kept
    section_kept line h = ground (arith, h)

    top_header :
        (lines : List Text) → any is_header lines ≡ false → any is_header (top lines) ≡ true
    top_header lines h = rw h (ground (arith, fits.header_stripped))

    top_section :
        (lines : List Text) → any is_section lines ≡ false → any is_section (top lines) ≡ true
    top_section lines h = rw h (
        any-append_right is_section (unless (any is_header lines) header) (section ∷ [])
          (ground (arith, fits.section_stripped)))

    pub merged-header :
        (lines : List Text) → any is_header (merged directives header section lines) ≡ true
    merged-header lines = rw (merged-parts lines) (elim (Bool-cases (any is_header lines)) [
      | inl h ↦ any-append_right is_header (top lines) (directives ++ kept lines) (
          any-append_right is_header directives (kept lines) (
            any-filter is_header (is_kept (map key_of directives) header section) lines header_kept
              h))
      | inr h ↦
          any-append_left is_header (top lines) (directives ++ kept lines) (top_header lines h)
    ])

    merged-section :
        (lines : List Text) → any is_section (merged directives header section lines) ≡ true
    merged-section lines = rw (merged-parts lines) (elim (Bool-cases (any is_section lines)) [
      | inl h ↦ any-append_right is_section (top lines) (directives ++ kept lines) (
          any-append_right is_section directives (kept lines) (
            any-filter is_section (is_kept (map key_of directives) header section) lines
              section_kept h))
      | inr h ↦
          any-append_left is_section (top lines) (directives ++ kept lines) (top_section lines h)
    ])

    -- Merging the merged lines moves lines and no more.
    pub merged_again :
        (lines : List Text)
        → sorted (merged directives header section (merged directives header section lines))
          ≡ sorted (merged directives header section lines)
    merged_again lines =
        let m = merged directives header section lines in
        ap sorted (
          merged-parts m
          ∙ rw (merged-header lines, merged-section lines)
              (ap (λ k. directives ++ k) (kept-merged lines)))
        ∙ sorted_move directives (top lines) (kept lines)
        ∙ ap sorted (sym (merged-parts lines))

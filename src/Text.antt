-- ===== src/Text.antt =====
-- Python's `str`, as the list of its code points, with the methods of it that the program calls.
-- The table of the full case folding is data of the interpreter and stays a parameter.
pub mod Samples
pub mod Words
pub mod Lines
pub mod Order
pub mod Ends
use Prim.Native.Char.{code}
use Prim.Native.String
use Prim.Native.String.{String}
use pyntara.Shared.{
  ℕ, zero, suc, ◌+◌, ◌/◌, ◌%◌, Bool, true, false, not, ◌&&◌, ◌||◌, List, [], ◌∷◌, ◌++◌, leb, ltb,
  ◌==◌, nat_eq, list_eq, if◌then◌else◌,
}

abbrev pub Text : Type 0
Text = List ℕ

-- bool(s)
abbrev pub is_nonempty : Text → Bool
is_nonempty [] = false
is_nonempty (_ ∷ _) = true

-- A literal of the source.
abbrev pub codes : String → Text
codes String.[] = []
codes (String.◌∷◌ c s) = code c ∷ codes s

-- str.isspace of one character
unfoldable pub is_space : ℕ → Bool
is_space c =
    (leb 9 c && leb c 13)
    || (leb 28 c && leb c 32)
    || (c == 133 || c == 160 || c == 5760)
    || (leb 8192 c && leb c 8202)
    || (c == 8232 || c == 8233 || c == 8239 || c == 8287 || c == 12288)

-- The characters that end a line for str.splitlines.
unfoldable pub is_line_break : ℕ → Bool
is_line_break c =
    (leb 10 c && leb c 13) || (leb 28 c && leb c 30) || (c == 133 || c == 8232 || c == 8233)

unfoldable pub lstrip : Text → Text
lstrip [] = []
lstrip (c ∷ s) = let rest = lstrip s in if is_space c then rest else c ∷ s

unfoldable pub rstrip : Text → Text
rstrip [] = []
rstrip (c ∷ s) = let rest = rstrip s in if is_space c && rest == [] then [] else c ∷ rest

unfoldable pub strip : Text → Text
unfolding lstrip rstrip is_space
strip s = rstrip (lstrip s)

-- s.split(): the words between runs of white space. `fields` keeps the word that is still open
-- at the left end apart from the words behind it.
abbrev pub close_word : List ℕ → List Text → List Text
close_word [] ws = ws
close_word (c ∷ w) ws = (c ∷ w) ∷ ws

unfoldable pub fields : Text → Text × List Text
fields [] = ([], [])
fields (c ∷ s) = let (w, ws) = fields s in if is_space c then ([], close_word w ws) else (c ∷ w, ws)

unfoldable pub split : Text → List Text
unfolding fields is_space
split s = let (w, ws) = fields s in close_word w ws

abbrev pub cons_head : ℕ → List Text → List Text
cons_head c [] = (c ∷ []) ∷ []
cons_head c (w ∷ ws) = (c ∷ w) ∷ ws

-- s.split(sep) for a separator of one character: never empty, and it keeps empty words.
unfoldable pub split_on : ℕ → Text → List Text
split_on sep [] = [] ∷ []
split_on sep (c ∷ s) = let rest = split_on sep s in if c == sep then [] ∷ rest else cons_head c rest

-- s.split(sep, 1)[0]
unfoldable pub before : ℕ → Text → Text
before sep [] = []
before sep (c ∷ s) = let rest = before sep s in if c == sep then [] else c ∷ rest

-- s.splitlines(). `after_cr` tells that the line break before `s` was "\r", which a "\n" joins.
unfoldable pub lines_from : Bool → Text → List Text
lines_from after_cr [] = []
lines_from after_cr (c ∷ s) =
    let rest = lines_from (c == 13) s in
    if after_cr && c == 10 then rest else if is_line_break c then [] ∷ rest else cons_head c rest

unfoldable pub splitlines : Text → List Text
unfolding lines_from is_line_break
splitlines = lines_from false

-- sep.join(words)
unfoldable pub join : Text → List Text → Text
join sep [] = []
join sep (w ∷ []) = w
join sep (w ∷ v ∷ ws) = w ++ (sep ++ join sep (v ∷ ws))

unfoldable pub starts_with : Text → Text → Bool
starts_with [] s = true
starts_with (p ∷ prefix) [] = false
starts_with (p ∷ prefix) (c ∷ s) = c == p && starts_with prefix s

-- `part in s`
unfoldable pub is_part : Text → Text → Bool
unfolding starts_with
is_part part [] = starts_with part []
is_part part (c ∷ s) = starts_with part (c ∷ s) || is_part part s

-- s.endswith(last) for one character
unfoldable pub ends_with : Text → ℕ → Bool
ends_with [] last = false
ends_with (c ∷ []) last = c == last
ends_with (c ∷ d ∷ s) last = ends_with (d ∷ s) last

-- s[:-1]
abbrev pub but_last : Text → Text
but_last [] = []
but_last (c ∷ []) = []
but_last (c ∷ d ∷ s) = c ∷ but_last (d ∷ s)

-- s.replace(a, b) for single characters
unfoldable pub replace : ℕ → ℕ → Text → Text
replace a b [] = []
replace a b (c ∷ s) = (if c == a then b else c) ∷ replace a b s

-- str.casefold, over the table that gives the folding of each code point
unfoldable pub casefold : (ℕ → Text) → Text → Text
casefold fold_code [] = []
casefold fold_code (c ∷ s) = fold_code c ++ casefold fold_code s

-- The table below 128.
abbrev pub ascii_fold : ℕ → Text
ascii_fold c = if leb 65 c && leb c 90 then (c + 32) ∷ [] else c ∷ []

-- str of a number. `digits_from` has more fuel than digits.
unfoldable pub digits_from : ℕ → ℕ → Text → Text
digits_from zero n rest = rest
digits_from (suc fuel) n rest =
    let more = digits_from fuel (n / 10) ((48 + n % 10) ∷ rest) in
    if leb n 9 then (48 + n) ∷ rest else more

unfoldable pub decimal : ℕ → Text
unfolding digits_from
decimal n = digits_from (suc n) n []

-- s.partition(sep): the separator is there, and the part behind its first occurrence
unfoldable pub contains_code : ℕ → Text → Bool
contains_code sep [] = false
contains_code sep (c ∷ s) = c == sep || contains_code sep s

unfoldable pub after : ℕ → Text → Text
after sep [] = []
after sep (c ∷ s) = let rest = after sep s in if c == sep then s else rest

-- sorted(texts): by the code points
unfoldable pub text_le : Text → Text → Bool
text_le [] t = true
text_le (c ∷ s) [] = false
text_le (c ∷ s) (d ∷ t) = if ltb c d then true else c == d && text_le s t

unfoldable pub insert_sorted : Text → List Text → List Text
unfolding text_le
insert_sorted s [] = s ∷ []
insert_sorted s (t ∷ ts) =
    let rest = insert_sorted s ts in if text_le s t then s ∷ t ∷ ts else t ∷ rest

unfoldable pub sorted : List Text → List Text
unfolding insert_sorted
sorted [] = []
sorted (s ∷ ts) = insert_sorted s (sorted ts)

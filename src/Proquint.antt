-- ===== src/Proquint.antt =====
-- The proquint code of utils.py: bytes as words that can be spoken. A byte is a number below 256.
-- `lower_code` is the table of str.lower.
pub mod Letters
pub mod Words
pub mod Decoded
mod Samples
use pyntara.Shared.{
  ℕ, zero, suc, ◌+◌, ◌-◌, ◌*◌, ◌/◌, ◌%◌, Bool, true, false, not, ◌&&◌, ◌||◌, Option, none, some,
  List, [], ◌∷◌, ◌++◌, map, filter, any, all, contains, length, ltb, ◌==◌, nat_eq, list_eq,
  if◌then◌else◌,
}
use pyntara.Text.{Text, but_last, is_nonempty, codes, strip, join, ends_with}

abbrev pub consonants : Text
consonants = codes "bdfghjklmnprstvz"

abbrev pub vowels : Text
vowels = codes "aiou"

abbrev pub trailing_marker : ℕ
trailing_marker = b'-'

-- PROQUINT_LETTERS
unfoldable pub is_letter : ℕ → Bool
is_letter c = contains (consonants ++ vowels) c

-- letters[i], for an index that is below the length
abbrev pub letter_at : Text → ℕ → ℕ
letter_at [] i = 0
letter_at (c ∷ letters) zero = c
letter_at (c ∷ letters) (suc i) = letter_at letters i

-- The index of a letter, none for a character that is not among them.
abbrev pub index_from : ℕ → Text → ℕ → Option ℕ
index_from i [] c = none
index_from i (letter ∷ letters) c = if letter == c then some i else index_from (suc i) letters c

unfoldable pub consonant_index : ℕ → Option ℕ
consonant_index c = index_from 0 consonants c

unfoldable pub vowel_index : ℕ → Option ℕ
vowel_index c = index_from 0 vowels c

unfoldable pub encode_word : ℕ → Text
encode_word word =
    letter_at consonants (word / 4096 % 16)
    ∷ letter_at vowels (word / 1024 % 4)
    ∷ letter_at consonants (word / 64 % 16)
    ∷ letter_at vowels (word / 16 % 4)
    ∷ letter_at consonants (word % 16)
    ∷ []

-- The words of the padded data: an odd last byte gets a zero byte behind it.
unfoldable pub words_of_bytes : List ℕ → List ℕ
words_of_bytes [] = []
words_of_bytes (high ∷ []) = high * 256 ∷ []
words_of_bytes (high ∷ low ∷ bytes) = (high * 256 + low) ∷ words_of_bytes bytes

unfoldable pub is_odd : List ℕ → Bool
is_odd [] = false
is_odd (b ∷ []) = true
is_odd (b ∷ c ∷ bytes) = is_odd bytes

-- A separator that is refused raises ValueError.
unfoldable pub is_separator : Text → Bool
unfolding is_letter
is_separator separator = all (λ c. ltb c 128) separator && not (any is_letter separator)

abbrev pub encoded : List ℕ → Text → Text
encoded bytes separator = join separator (map encode_word (words_of_bytes bytes))

unfoldable pub proquint_encode : List ℕ → (separator : Text) → Option Text
proquint_encode bytes separator =
    if not (is_separator separator)
    then none
    else if is_odd bytes
    then some (encoded bytes separator ++ trailing_marker ∷ [])
    else some (encoded bytes separator)

abbrev word_of : Option ℕ → Option ℕ → Option ℕ → Option ℕ → Option ℕ → Option ℕ
word_of (some a) (some b) (some c) (some d) (some e) =
    some (a * 4096 + b * 1024 + c * 64 + d * 16 + e)
word_of _ _ _ _ _ = none

-- The two bytes of one chunk; the bits of the five letters do not overlap.
unfoldable pub decode_word : (a b c d e : ℕ) → Option ℕ
unfolding consonant_index vowel_index
decode_word a b c d e =
    word_of (consonant_index a) (vowel_index b) (consonant_index c) (vowel_index d)
      (consonant_index e)

abbrev pub two_bytes : Option ℕ → Option (List ℕ) → Option (List ℕ)
two_bytes (some word) (some rest) = some (word / 256 ∷ word % 256 ∷ rest)
two_bytes _ _ = none

-- The loop over the chunks, for a text of which five letters or more are left at each turn.
unfoldable pub decode_chunks : Text → Option (List ℕ)
unfolding decode_word
decode_chunks [] = some []
decode_chunks (a ∷ b ∷ c ∷ d ∷ e ∷ letters) =
    two_bytes (decode_word a b c d e) (decode_chunks letters)
decode_chunks _ = none

-- `if has_trailing`: the last byte must be there and be zero.
abbrev pub last_is_zero : List ℕ → Bool
last_is_zero [] = false
last_is_zero (b ∷ []) = b == 0
last_is_zero (b ∷ c ∷ raw) = last_is_zero (c ∷ raw)

unfoldable pub without_padding : Bool → Option (List ℕ) → Option (List ℕ)
without_padding has_trailing none = none
without_padding false (some raw) = some raw
without_padding true (some raw) = if last_is_zero raw then some (but_last raw) else none

unfoldable pub lower : (ℕ → Text) → Text → Text
lower lower_code [] = []
lower lower_code (c ∷ s) = lower_code c ++ lower lower_code s

module _ (lower_code : ℕ → Text) where
  abbrev pub letters_of : Text → Text
  letters_of body = filter is_letter (lower lower_code body)

  unfoldable pub decode_body : Bool → Text → Option (List ℕ)
  unfolding decode_chunks without_padding lower is_letter
  decode_body has_trailing body =
      if is_nonempty (letters_of body)
      then without_padding has_trailing (decode_chunks (letters_of body))
      else none

  unfoldable pub proquint_decode : Text → Option (List ℕ)
  unfolding decode_body
  proquint_decode s =
      let trimmed = strip s in
      if is_nonempty trimmed
      then (let has_trailing = ends_with trimmed trailing_marker in
          decode_body has_trailing (if has_trailing then but_last trimmed else trimmed))
      else some []

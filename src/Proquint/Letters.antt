-- ===== src/Proquint/Letters.antt =====
-- The letters of the words, and a word read again.
use pyntara.Shared.{
  ℕ, zero, suc, ◌/◌, ◌%◌, ◌<◌, ◌≡◌, refl, ap, ◌∙◌, Bool, true, false, not, ◌&&◌, some, ◌++◌, arith,
  all, all→, contains→Memᴰ, ◌==◌, nat_eq, list_eq, option_eq, inl, inr, Bool-cases,
}
use pyntara.Text.{is_space}
use pyntara.Proquint.{
  consonants, vowels, is_letter, letter_at, consonant_index, vowel_index, encode_word, decode_word,
  trailing_marker,
}

-- A test that holds of the numbers below a bound, one by one.
abbrev all_below : ℕ → (ℕ → Bool) → Bool
all_below zero p = true
all_below (suc n) p = p n && all_below n p

below→ : (n : ℕ) (p : ℕ → Bool) (i : ℕ) → all_below n p ≡ true → i < n → p i ≡ true
below→ zero p i h k = absurd (omega arith)
below→ (suc n) p i h k = elim (Bool-cases (i == n)) [
  | inl here ↦ let e : i ≡ n = ground arith in ap p e ∙ ground arith
  | inr there ↦ below→ n p i (ground arith) (ground arith)
]

abbrev is_consonant_at : ℕ → Bool
is_consonant_at i =
    is_letter (letter_at consonants i) && consonant_index (letter_at consonants i) == some i

abbrev is_vowel_at : ℕ → Bool
is_vowel_at i = is_letter (letter_at vowels i) && vowel_index (letter_at vowels i) == some i

consonants_below : all_below 16 is_consonant_at ≡ true
unfolding is_letter consonant_index nat_eq list_eq option_eq
consonants_below = refl

vowels_below : all_below 4 is_vowel_at ≡ true
unfolding is_letter vowel_index nat_eq list_eq option_eq
vowels_below = refl

-- A consonant is a letter, and its index is the one it was taken at.
consonant_cases :
    (i : ℕ)
    → i < 16
    → (is_letter (letter_at consonants i) ≡ true)
      × (consonant_index (letter_at consonants i) ≡ some i)
consonant_cases i h =
    let good = below→ 16 is_consonant_at i consonants_below h in (ground arith, ground arith)

vowel_cases :
    (i : ℕ)
    → i < 4
    → (is_letter (letter_at vowels i) ≡ true) × (vowel_index (letter_at vowels i) ≡ some i)
vowel_cases i h = let good = below→ 4 is_vowel_at i vowels_below h in (ground arith, ground arith)

pub encode_word-letters : (word : ℕ) → all is_letter (encode_word word) ≡ true
unfolding encode_word
encode_word-letters word = rw (
  (consonant_cases (word / 4096 % 16) (omega arith)).0,
  (vowel_cases (word / 1024 % 4) (omega arith)).0,
  (consonant_cases (word / 64 % 16) (omega arith)).0,
  (vowel_cases (word / 16 % 4) (omega arith)).0,
  (consonant_cases (word % 16) (omega arith)).0,
)

-- The five letters of a word of sixteen bits are read as the word.
pub decode_word-letters :
    (word : ℕ)
    → word < 65536
    → decode_word
        (letter_at consonants (word / 4096 % 16))
        (letter_at vowels (word / 1024 % 4))
        (letter_at consonants (word / 64 % 16))
        (letter_at vowels (word / 16 % 4))
        (letter_at consonants (word % 16))
      ≡ some word
unfolding decode_word
decode_word-letters word h =
    rw
      (
        (consonant_cases (word / 4096 % 16) (omega arith)).1,
        (vowel_cases (word / 1024 % 4) (omega arith)).1,
        (consonant_cases (word / 64 % 16) (omega arith)).1,
        (vowel_cases (word / 16 % 4) (omega arith)).1,
        (consonant_cases (word % 16) (omega arith)).1,
      )
      (ap some (omega arith))

solid_letters :
    all (λ c. not (is_space c) && not (c == trailing_marker)) (consonants ++ vowels) ≡ true
unfolding is_space nat_eq
solid_letters = refl

-- A letter is neither white space nor the trailing marker.
pub letter_solid :
    (c : ℕ) → is_letter c ≡ true → (is_space c ≡ false) × ((c == trailing_marker) ≡ false)
unfolding is_letter
letter_solid c h =
    let solid =
      all→ (λ c. not (is_space c) && not (c == trailing_marker)) {x = c} {xs = consonants ++ vowels}
        solid_letters (contains→Memᴰ c _ h) in
    (ground arith, ground arith)

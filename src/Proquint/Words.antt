-- ===== src/Proquint/Words.antt =====
-- The words of some bytes: their letters are read as the words, and the words as the bytes.
use pyntara.Shared.{
  ℕ, ◌/◌, ◌%◌, ◌<◌, ◌≡◌, refl, ap, ap₂, ◌≢◌, inl, inr, Bool, true, some, List, [], ◌∷◌, ◌++◌, arith,
  all, ltb, Bool-cases, nat_eq, list_eq, if◌then◌else◌,
}
use pyntara.Text.{Text, but_last}
use pyntara.Proquint.{
  encode_word, words_of_bytes, is_odd, decode_chunks, last_is_zero, without_padding,
}
use pyntara.Proquint.Letters.{decode_word-letters}

-- The letters of some words, without a separator.
abbrev pub spoken : List ℕ → Text
spoken [] = []
spoken (word ∷ words) = encode_word word ++ spoken words

abbrev pub is_word16 : ℕ → Bool
is_word16 word = ltb word 65536

abbrev pub is_byte : ℕ → Bool
is_byte b = ltb b 256

abbrev pub bytes_of : List ℕ → List ℕ
bytes_of [] = []
bytes_of (word ∷ words) = word / 256 ∷ word % 256 ∷ bytes_of words

pub decode_chunks-spoken :
    (words : List ℕ)
    → all is_word16 words ≡ true
    → decode_chunks (spoken words) ≡ some (bytes_of words)
unfolding decode_chunks encode_word
decode_chunks-spoken [] h = refl
decode_chunks-spoken (word ∷ words) h =
    rw (decode_word-letters word (ground arith), decode_chunks-spoken words (ground arith))

pub words_of_bytes-words :
    (bytes : List ℕ) → all is_byte bytes ≡ true → all is_word16 (words_of_bytes bytes) ≡ true
unfolding words_of_bytes
words_of_bytes-words [] h = refl
words_of_bytes-words (b ∷ []) h = ground arith
words_of_bytes-words (b ∷ c ∷ bytes) h = ground (arith, words_of_bytes-words bytes)

pub words_of_bytes_filled : (b : ℕ) (bytes : List ℕ) → words_of_bytes (b ∷ bytes) ≢ []
unfolding words_of_bytes
words_of_bytes_filled b [] e = cc
words_of_bytes_filled b (c ∷ bytes) e = cc

-- The bytes of the words: the bytes, and the padding.
pub bytes_of-words_of_bytes :
    (bytes : List ℕ)
    → all is_byte bytes ≡ true
    → bytes_of (words_of_bytes bytes) ≡ (if is_odd bytes then bytes ++ 0 ∷ [] else bytes)
unfolding words_of_bytes is_odd
bytes_of-words_of_bytes [] h = refl
bytes_of-words_of_bytes (b ∷ []) h = ap₂ (λ x y. x ∷ y ∷ []) (omega arith) (omega arith)
bytes_of-words_of_bytes (b ∷ c ∷ bytes) h =
    let small : c < 256 = ground arith in
    let ih = bytes_of-words_of_bytes bytes (ground arith) in
    elim (Bool-cases (is_odd bytes)) [
      | inl odd ↦ rw odd (
          ap₂ (λ x l. x ∷ l) (omega (arith, small))
            (ap₂ (λ x l. x ∷ l) (omega (arith, small)) (rw odd at ih)))
      | inr even ↦ rw even (
          ap₂ (λ x l. x ∷ l) (omega (arith, small))
            (ap₂ (λ x l. x ∷ l) (omega (arith, small)) (rw even at ih)))
    ]

last_is_zero-snoc : (bytes : List ℕ) → last_is_zero (bytes ++ 0 ∷ []) ≡ true
unfolding nat_eq
last_is_zero-snoc [] = refl
last_is_zero-snoc (b ∷ []) = refl
last_is_zero-snoc (b ∷ c ∷ bytes) = last_is_zero-snoc (c ∷ bytes)

pub but_last-snoc : (s : List ℕ) (z : ℕ) → but_last (s ++ z ∷ []) ≡ s
but_last-snoc [] z = refl
but_last-snoc (c ∷ []) z = refl
but_last-snoc (c ∷ d ∷ s) z = ap (λ t. c ∷ t) (but_last-snoc (d ∷ s) z)

pub without_padding-bytes :
    (bytes : List ℕ)
    → without_padding (is_odd bytes) (some (if is_odd bytes then bytes ++ 0 ∷ [] else bytes))
      ≡ some bytes
unfolding without_padding
without_padding-bytes bytes = elim (Bool-cases (is_odd bytes)) [
  | inl odd ↦ rw odd (rw (last_is_zero-snoc bytes, but_last-snoc bytes 0))
  | inr even ↦ rw even
]

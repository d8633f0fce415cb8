-- ===== src/Proquint/Decoded.antt =====
-- What was encoded is decoded.
use pyntara.Shared.{
  ℕ, ◌≡◌, refl, sym, ap, ap₂, subst, ◌∙◌, inl, inr, Bool, true, false, some, List, [], ◌∷◌, ◌++◌,
  arith, map, filter, filter-append, append_assoc, append-nil, all, Bool-cases, ◌==◌, nat_eq,
  list_eq, if◌then◌else◌,
}
use pyntara.Text.{Text, is_nonempty, is_space, strip, join}
use pyntara.Text.Ends.{strip-snoc, ends_with-snoc}
use pyntara.Proquint.{
  is_letter, encode_word, trailing_marker, words_of_bytes, is_odd, is_separator, encoded,
  proquint_encode, without_padding, lower, letters_of, decode_body, proquint_decode,
}
use pyntara.Proquint.Letters.{encode_word-letters, letter_solid}
use pyntara.Proquint.Words.{
  spoken, is_word16, is_byte, bytes_of, decode_chunks-spoken, words_of_bytes-words,
  words_of_bytes_filled, bytes_of-words_of_bytes, but_last-snoc, without_padding-bytes,
}

-- A text that begins and ends with a letter.
abbrev IsFramed : Text → Type 0
IsFramed t =
    (c : ℕ) × (s : Text) × (z : ℕ) × (t ≡ c ∷ s ++ z ∷ [])
    × (is_letter c ≡ true)
    × (is_letter z ≡ true)

encode_word-IsFramed : (word : ℕ) → IsFramed (encode_word word)
unfolding encode_word
encode_word-IsFramed word =
    let letters = encode_word-letters word in
    (_, _ ∷ _ ∷ _ ∷ [], _, refl, ground arith, ground arith)

IsFramed-append :
    (separator : Text) {a b : Text} → IsFramed a → IsFramed b → IsFramed (a ++ (separator ++ b))
IsFramed-append separator (c, s, z, e, h, _) (d, t, y, f, _, k) = (
  c,
  s ++ (z ∷ (separator ++ (d ∷ t))),
  y,
  rw (e, f)
      (ap (λ l. c ∷ l)
        (append_assoc s (z ∷ []) (separator ++ (d ∷ t ++ y ∷ []))
          ∙ ap (λ l. s ++ z ∷ l) (sym (append_assoc separator (d ∷ t) (y ∷ [])))
          ∙ sym (append_assoc s (z ∷ (separator ++ d ∷ t)) (y ∷ [])))),
  h,
  k,
)

encoded-IsFramed :
    (separator : Text) (word : ℕ) (words : List ℕ)
    → IsFramed (join separator (map encode_word (word ∷ words)))
unfolding join
encoded-IsFramed separator word [] = encode_word-IsFramed word
encoded-IsFramed separator word (next ∷ words) =
    IsFramed-append separator (encode_word-IsFramed word) (encoded-IsFramed separator next words)

marker_solid : is_space trailing_marker ≡ false
unfolding is_space nat_eq
marker_solid = refl

marker_self : (trailing_marker == trailing_marker) ≡ true
unfolding nat_eq
marker_self = refl

module _ (lower_code : ℕ → Text) where
  decode-even :
      (body : Text)
      → IsFramed body
      → proquint_decode lower_code body ≡ decode_body lower_code false body
  unfolding proquint_decode
  decode-even body (c, s, z, e, h, k) = rw e (
      rw (
        strip-snoc c s z (letter_solid c h).0 (letter_solid z k).0,
        ends_with-snoc (c ∷ s) z trailing_marker,
        (letter_solid z k).1,
      ))

  decode-odd :
      (body : Text)
      → IsFramed body
      → proquint_decode lower_code (body ++ trailing_marker ∷ []) ≡ decode_body lower_code true body
  unfolding proquint_decode
  decode-odd body (c, s, z, e, h, k) = rw e (
      rw (
        strip-snoc c (s ++ z ∷ []) trailing_marker (letter_solid c h).0 marker_solid,
        ends_with-snoc (c ∷ s ++ z ∷ []) trailing_marker trailing_marker,
        marker_self,
        but_last-snoc (c ∷ s ++ z ∷ []) trailing_marker,
      ))

  lower-append : (s t : Text) → lower lower_code (s ++ t) ≡ lower lower_code s ++ lower lower_code t
  unfolding lower
  lower-append [] t = refl
  lower-append (c ∷ s) t =
      ap (λ l. lower_code c ++ l) (lower-append s t)
      ∙ sym (append_assoc (lower_code c) (lower lower_code s) (lower lower_code t))

  letters_of-append :
      (s t : Text)
      → letters_of lower_code (s ++ t) ≡ letters_of lower_code s ++ letters_of lower_code t
  letters_of-append s t =
      ap (filter is_letter) (lower-append s t)
      ∙ filter-append is_letter (lower lower_code s) (lower lower_code t)

  -- The letters of the words are lower case: str.lower leaves each of them.
  abbrev pub KeepsLetters : Type 0
  KeepsLetters = (c : ℕ) → is_letter c ≡ true → lower_code c ≡ c ∷ []

  module _ (keeps : KeepsLetters) where
    letters_of-letters : (s : Text) → all is_letter s ≡ true → letters_of lower_code s ≡ s
    unfolding lower
    letters_of-letters [] h = refl
    letters_of-letters (c ∷ s) h =
        let letter : is_letter c ≡ true = ground arith in
        rw (keeps c letter) (rw letter (ap (λ l. c ∷ l) (letters_of-letters s (ground arith))))

    letters_of-join :
        (separator : Text)
        → letters_of lower_code separator ≡ []
        → (words : List ℕ)
        → letters_of lower_code (join separator (map encode_word words)) ≡ spoken words
    unfolding join lower encode_word
    letters_of-join separator silent [] = refl
    letters_of-join separator silent (word ∷ []) =
        letters_of-letters (encode_word word) (encode_word-letters word)
        ∙ sym (append-nil (encode_word word))
    letters_of-join separator silent (word ∷ next ∷ words) =
        let rest = join separator (map encode_word (next ∷ words)) in
        letters_of-append (encode_word word) (separator ++ rest)
        ∙ ap₂ (λ a b. a ++ b) (letters_of-letters (encode_word word) (encode_word-letters word))
            (letters_of-append separator rest
              ∙ ap₂ (λ a b. a ++ b) silent (letters_of-join separator silent (next ∷ words)))

    spoken-nonempty : (word : ℕ) (words : List ℕ) → is_nonempty (spoken (word ∷ words)) ≡ true
    unfolding encode_word
    spoken-nonempty word words = refl

    decode_body-encoded :
        (separator : Text)
        → letters_of lower_code separator ≡ []
        → (bytes : List ℕ) (word : ℕ) (words : List ℕ) → words_of_bytes bytes ≡ word ∷ words
        → all is_byte bytes ≡ true
        → decode_body lower_code (is_odd bytes) (encoded bytes separator) ≡ some bytes
    unfolding decode_body
    decode_body-encoded separator silent bytes word words e h =
        let fits : all is_word16 (word ∷ words) ≡ true =
          subst (λ ws. all is_word16 ws ≡ true) e (words_of_bytes-words bytes h) in
        rw (e, letters_of-join separator silent (word ∷ words), spoken-nonempty word words)
          (ap (without_padding (is_odd bytes)) (
              decode_chunks-spoken (word ∷ words) fits
              ∙ ap some (ap bytes_of (sym e) ∙ bytes_of-words_of_bytes bytes h))
            ∙ without_padding-bytes bytes)

    encode_accepted :
        (separator : Text) (bytes : List ℕ)
        → is_separator separator ≡ true
        → proquint_encode bytes separator
          ≡ some (
              if is_odd bytes
              then encoded bytes separator ++ trailing_marker ∷ []
              else encoded bytes separator)
    unfolding proquint_encode
    encode_accepted separator bytes accepted = elim (Bool-cases (is_odd bytes)) [
      | inl odd ↦ rw (accepted, odd)
      | inr even ↦ rw (accepted, even)
    ]

    decode-framed :
        (body : Text) (odd : Bool)
        → IsFramed body
        → proquint_decode lower_code (if odd then body ++ trailing_marker ∷ [] else body)
          ≡ decode_body lower_code odd body
    decode-framed body true framed = decode-odd body framed
    decode-framed body false framed = decode-even body framed

    decode_nothing : proquint_decode lower_code [] ≡ some []
    unfolding proquint_decode strip
    decode_nothing = refl

    encoded_nothing : (separator : Text) → encoded [] separator ≡ []
    unfolding join words_of_bytes
    encoded_nothing separator = refl

    decode-encoded :
        (separator : Text)
        → letters_of lower_code separator ≡ []
        → (bytes words : List ℕ) → words_of_bytes bytes ≡ words
        → all is_byte bytes ≡ true
        → proquint_decode lower_code (
            if is_odd bytes
            then encoded bytes separator ++ trailing_marker ∷ []
            else encoded bytes separator)
          ≡ some bytes
    decode-encoded separator silent [] words e h =
        unfold is_odd in
        ap (proquint_decode lower_code) (encoded_nothing separator) ∙ decode_nothing
    decode-encoded separator silent (b ∷ bytes) [] e h = absurd (words_of_bytes_filled b bytes e)
    decode-encoded separator silent (b ∷ bytes) (word ∷ words) e h =
        decode-framed (encoded (b ∷ bytes) separator) (is_odd (b ∷ bytes)) (
          subst (λ ws. IsFramed (join separator (map encode_word ws))) (sym e)
            (encoded-IsFramed separator word words))
        ∙ decode_body-encoded separator silent (b ∷ bytes) word words e h

    -- Of a separator that `proquint_encode` accepts and whose lower-case form holds no letter of
    -- the words: all bytes are encoded, and what was encoded is decoded to them, for a str.lower
    -- that leaves the letters of the words.
    pub decode-encode :
        (separator : Text)
        → is_separator separator ≡ true
        → letters_of lower_code separator ≡ []
        → (bytes : List ℕ) → all is_byte bytes ≡ true
        → (s : Text) × (proquint_encode bytes separator ≡ some s)
          × (proquint_decode lower_code s ≡ some bytes)
    decode-encode separator accepted silent bytes h = (
      _,
      encode_accepted separator bytes accepted,
      decode-encoded separator silent bytes (words_of_bytes bytes) refl h,
    )

-- ===== src/Proquint/Samples.antt =====
-- The proquints of an address and of one byte, and the theorem at it.
use pyntara.Shared.{ℕ, ◌≡◌, refl, true, none, some, List, [], ◌∷◌, arith, nat_eq, list_eq}
use pyntara.Text.{Text, codes, strip, join, ends_with, ascii_fold, is_space}
use pyntara.Proquint.{
  is_letter, is_separator, proquint_encode, proquint_decode, letters_of, lower, encode_word,
  words_of_bytes, is_odd,
}
use pyntara.Proquint.Decoded.{KeepsLetters, decode-encode}

program : Unit {0}
unfolding proquint_encode proquint_decode is_separator encode_word words_of_bytes is_odd lower strip
    join ends_with is_letter is_space nat_eq list_eq
program = tt

abbrev address : List ℕ
address = 127 ∷ 0 ∷ 0 ∷ 1 ∷ []

encode-address : proquint_encode address (codes "-") ≡ some (codes "lusab-babad")
unfolding program
encode-address = refl

encode-odd : proquint_encode (127 ∷ []) (codes "-") ≡ some (codes "lusab-")
unfolding program
encode-odd = refl

decode-upper : proquint_decode ascii_fold (codes " LUSAB-babad ") ≡ some address
unfolding program
decode-upper = refl

-- An upper-case letter passes as a separator, and what it separates is not decoded.
encode-upper_separator : proquint_encode address (codes "B") ≡ some (codes "lusabBbabad")
unfolding program
encode-upper_separator = refl

decode-upper_separator : proquint_decode ascii_fold (codes "lusabBbabad") ≡ none
unfolding program
decode-upper_separator = refl

ascii_fold-KeepsLetters : KeepsLetters ascii_fold
unfolding is_letter
ascii_fold-KeepsLetters c h = ground arith

dash_accepted : is_separator (codes "-") ≡ true
unfolding program
dash_accepted = refl

dash_silent : letters_of ascii_fold (codes "-") ≡ []
unfolding program
dash_silent = refl

decode-encode_example :
    (s : Text) × (proquint_encode address (codes "-") ≡ some s)
    × (proquint_decode ascii_fold s ≡ some address)
decode-encode_example =
    decode-encode ascii_fold ascii_fold-KeepsLetters (codes "-") dash_accepted dash_silent address
      refl

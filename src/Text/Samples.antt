-- ===== src/Text/Samples.antt =====
-- The text operations on small inputs.
use pyntara.Shared.{◌≡◌, refl, true, false, [], ◌∷◌, nat_eq, list_eq}
use pyntara.Text.{
  codes, strip, split, split_on, before, splitlines, join, is_part, ends_with, casefold, ascii_fold,
}

program : Unit {0}
unfolding strip split split_on before splitlines join is_part ends_with casefold nat_eq list_eq
program = tt

split-words : split (codes "  UUID=1 /  btrfs ") ≡ codes "UUID=1" ∷ codes "/" ∷ codes "btrfs" ∷ []
unfolding program
split-words = refl

split_on-commas : split_on b',' (codes "a,,b") ≡ codes "a" ∷ [] ∷ codes "b" ∷ []
unfolding program
split_on-commas = refl

splitlines-crlf : splitlines (97 ∷ 13 ∷ 10 ∷ 10 ∷ 98 ∷ 13 ∷ []) ≡ (97 ∷ []) ∷ [] ∷ (98 ∷ []) ∷ []
unfolding program
splitlines-crlf = refl

join-split : join (codes ", ") (codes "a" ∷ codes "b" ∷ []) ≡ codes "a, b"
unfolding program
join-split = refl

is_part-infix : is_part (codes "NS=") (codes "DNS=1") ≡ true
unfolding program
is_part-infix = refl

is_part-absent : is_part (codes "NS=1") (codes "DNS=2") ≡ false
unfolding program
is_part-absent = refl

casefold-strip : casefold ascii_fold (strip (codes " Fast-Desktop ")) ≡ codes "fast-desktop"
unfolding program
casefold-strip = refl

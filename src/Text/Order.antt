-- ===== src/Text/Order.antt =====
-- The order of texts by code points, and what the order of a list is to `sorted`.
use pyntara.Shared.{
  ◌≡◌, refl, sym, ap, ap₂, ◌∙◌, inl, inr, true, false, List, [], ◌∷◌, ◌++◌, arith, Bool-cases,
  nat_eq, list_eq,
}
use pyntara.Text.{Text, text_le, insert_sorted, sorted}

text_le_total : (s t : Text) → text_le s t ≡ false → text_le t s ≡ true
unfolding text_le
text_le_total [] t h = absurd (cc)
text_le_total (c ∷ s) [] h = refl
text_le_total (c ∷ s) (d ∷ t) h = ground (arith, text_le_total s t)

text_le_antisym : (s t : Text) → text_le s t ≡ true → text_le t s ≡ true → s ≡ t
unfolding text_le
text_le_antisym [] [] h k = refl
text_le_antisym [] (d ∷ t) h k = absurd (cc)
text_le_antisym (c ∷ s) [] h k = absurd (cc)
text_le_antisym (c ∷ s) (d ∷ t) h k =
    ap₂ (λ a l. a ∷ l) (ground arith) (text_le_antisym s t (ground arith) (ground arith))

text_le_trans : (s t u : Text) → text_le s t ≡ true → text_le t u ≡ true → text_le s u ≡ true
unfolding text_le
text_le_trans [] t u h k = refl
text_le_trans (c ∷ s) [] u h k = absurd (cc)
text_le_trans (c ∷ s) (d ∷ t) [] h k = absurd (cc)
text_le_trans (c ∷ s) (d ∷ t) (e ∷ u) h k = ground (arith, text_le_trans s t u)

insert_sorted_comm :
    (a b : Text) (l : List Text)
    → insert_sorted a (insert_sorted b l) ≡ insert_sorted b (insert_sorted a l)
unfolding insert_sorted
insert_sorted_comm a b l = elim (Bool-cases (text_le a b)) [
  | inl le ↦ elim (Bool-cases (text_le b a)) [
    | inl ge ↦
        let e = text_le_antisym a b le ge in
        ap₂ (λ x y. insert_sorted x (insert_sorted y l)) e (sym e)
    | inr lt ↦ below a b l le lt
  ]
  | inr gt ↦ sym (below b a l (text_le_total a b gt) gt)
]
  where
    below :
        (x y : Text) (m : List Text)
        → text_le x y ≡ true
        → text_le y x ≡ false
        → insert_sorted x (insert_sorted y m) ≡ insert_sorted y (insert_sorted x m)
    below x y [] le lt = rw (le, lt)
    below x y (t ∷ m) le lt = elim (Bool-cases (text_le y t)) [
      | inl yt ↦ rw (yt, text_le_trans x y t le yt) (rw (le, lt, insert_sorted) (rw yt))
      | inr ty ↦ elim (Bool-cases (text_le x t)) [
        | inl xt ↦ rw (ty, xt) (rw (lt, insert_sorted) (rw ty))
        | inr tx ↦ rw (ty, tx) (rw (ty, insert_sorted) (ap (λ l. t ∷ l) (below x y m le lt)))
      ]
    ]

abbrev insert_all : List Text → List Text → List Text
insert_all [] l = l
insert_all (x ∷ xs) l = insert_sorted x (insert_all xs l)

insert_all-insert_sorted :
    (xs : List Text) (a : Text) (l : List Text)
    → insert_all xs (insert_sorted a l) ≡ insert_sorted a (insert_all xs l)
insert_all-insert_sorted [] a l = refl
insert_all-insert_sorted (x ∷ xs) a l =
    ap (insert_sorted x) (insert_all-insert_sorted xs a l)
    ∙ insert_sorted_comm x a (insert_all xs l)

insert_all_comm :
    (xs ys l : List Text) → insert_all xs (insert_all ys l) ≡ insert_all ys (insert_all xs l)
insert_all_comm xs [] l = refl
insert_all_comm xs (y ∷ ys) l =
    insert_all-insert_sorted xs y (insert_all ys l) ∙ ap (insert_sorted y) (insert_all_comm xs ys l)

sorted-append : (xs ys : List Text) → sorted (xs ++ ys) ≡ insert_all xs (sorted ys)
unfolding sorted
sorted-append [] ys = refl
sorted-append (x ∷ xs) ys = ap (insert_sorted x) (sorted-append xs ys)

-- A block of a list may move to its front.
pub sorted_move : (xs ys zs : List Text) → sorted (xs ++ (ys ++ zs)) ≡ sorted (ys ++ (xs ++ zs))
sorted_move xs ys zs =
    sorted-append xs (ys ++ zs)
    ∙ ap (insert_all xs) (sorted-append ys zs)
    ∙ insert_all_comm xs ys (sorted zs)
    ∙ ap (insert_all ys) (sym (sorted-append xs zs))
    ∙ sym (sorted-append ys (xs ++ zs))

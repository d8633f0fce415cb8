-- ===== src/Catalog/Shipped.antt =====
-- The catalog that the program ships, under every case folding that leaves the characters of its
-- names as they are.
use pyntara.Shared.{
  ℕ, ◌≡◌, refl, ◌∙◌, ap, ap₂, Bool, true, ◌&&◌, ◌||◌, List, [], ◌∷◌, map, arith, all, leb, nat_eq,
  list_eq, ◌==◌,
}
use pyntara.Text.{Text, casefold}
use pyntara.Catalog.Data.{TaskSpec, catalog}
use pyntara.Catalog.{resolve}
use pyntara.Catalog.Order.{is_ordered}
use pyntara.Catalog.RunOrder.{IsRunnable, resolve-IsRunnable}

-- a to z, 0 to 9 and _
unfoldable pub is_name_char : ℕ → Bool
is_name_char c = (leb 97 c && leb c 122) || (leb 48 c && leb c 57) || c == 95

-- The full case folding of Unicode maps each of these characters to itself.
abbrev pub FixesNames : (ℕ → Text) → Type 0
FixesNames fold_code = (c : ℕ) → is_name_char c ≡ true → fold_code c ≡ c ∷ []

module _ (fold_code : ℕ → Text) (fixes : FixesNames fold_code) where
  casefold_of_name : (s : Text) → all is_name_char s ≡ true → casefold fold_code s ≡ s
  unfolding casefold
  casefold_of_name [] h = refl
  casefold_of_name (c ∷ s) h =
      rw (fixes c (ground arith)) (ap (λ t. c ∷ t) (casefold_of_name s (ground arith)))

  map-casefold :
      (names : List Text)
      → all (all is_name_char) names ≡ true
      → map (casefold fold_code) names ≡ names
  map-casefold [] h = refl
  map-casefold (n ∷ names) h =
      ap₂ (λ a l. a ∷ l) (casefold_of_name n (ground arith)) (map-casefold names (ground arith))

plain : FixesNames (λ c. c ∷ [])
plain c h = refl

module _ (fold_code : ℕ → Text) (fixes : FixesNames fold_code) where
  is_ordered_of_names :
      (earlier : List Text) (ts : List TaskSpec)
      → all (all is_name_char) earlier ≡ true
      → all (λ t. all is_name_char t.name) ts ≡ true
      → is_ordered fold_code earlier ts ≡ is_ordered (λ c. c ∷ []) earlier ts
  unfolding is_ordered
  is_ordered_of_names earlier [] h k = refl
  is_ordered_of_names earlier (t ∷ ts) h k =
      let name_plain : all is_name_char t.name ≡ true = ground arith in
      rw (
        map-casefold fold_code fixes earlier h,
        map-casefold (λ c. c ∷ []) plain earlier h,
        casefold_of_name fold_code fixes t.name name_plain,
        casefold_of_name (λ c. c ∷ []) plain t.name name_plain,
        is_ordered_of_names (t.name ∷ earlier) ts (ground arith) (ground arith),
      )

  catalog-is_ordered : is_ordered fold_code [] catalog ≡ true
  catalog-is_ordered =
      is_ordered_of_names [] catalog refl (unfold is_name_char nat_eq in refl)
      ∙ (unfold is_ordered casefold list_eq nat_eq in refl)

  -- Whatever is selected, the shipped catalog resolves to a list in which every task stands
  -- behind all its dependencies.
  pub catalog-IsRunnable :
      (selected : List Text) → IsRunnable fold_code catalog [] (resolve fold_code selected catalog)
  catalog-IsRunnable selected = resolve-IsRunnable fold_code selected catalog catalog-is_ordered

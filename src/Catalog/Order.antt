-- ===== src/Catalog/Order.antt =====
-- A catalog in order: each task names only tasks above it, in their own spelling, and no two
-- names fold alike. The order of the catalog is what makes a resolved list run in order.
use mathlib.Core.List.Memᴰ
use pyntara.Shared.{
  ℕ, ◌≡◌, refl, sym, ◌∙◌, ap, ◌≢◌, Bool, true, false, not, ◌&&◌, some, List, [], ◌∷◌, map, Memᴰ,
  arith, all, contains, Memᴰ→contains, nat_eq, list_eq,
}
use pyntara.Text.{Text, casefold}
use pyntara.Catalog.Data.{TaskSpec}
use pyntara.Catalog.{by_name}

module _ (fold_code : ℕ → Text) where
  -- `earlier` holds the names of the tasks above.
  unfoldable pub is_ordered : List Text → List TaskSpec → Bool
  is_ordered earlier [] = true
  is_ordered earlier (t ∷ ts) =
      all (contains earlier) t.depends
      && (not (contains (map (casefold fold_code) earlier) (casefold fold_code t.name))
          && is_ordered (t.name ∷ earlier) ts)

  pub record OrderedCons (earlier : List Text) (t : TaskSpec) (ts : List TaskSpec) : Type 0 where
    pub depends_above : all (contains earlier) t.depends ≡ true
    pub fresh : contains (map (casefold fold_code) earlier) (casefold fold_code t.name) ≡ false
    pub rest_ordered : is_ordered (t.name ∷ earlier) ts ≡ true

  pub is_ordered-cons :
      (earlier : List Text) (t : TaskSpec) (ts : List TaskSpec)
      → is_ordered earlier (t ∷ ts) ≡ true
      → OrderedCons earlier t ts
  unfolding is_ordered
  is_ordered-cons earlier t ts h = record {
    depends_above = ground arith;
    fresh = ground arith;
    rest_ordered = ground arith;
  }

  -- A task below does not fold like a name above.
  pub fold-ne_earlier :
      (earlier : List Text) (ts : List TaskSpec) {x : Text} {t : TaskSpec}
      → is_ordered earlier ts ≡ true
      → Memᴰ x earlier
      → Memᴰ t ts
      → casefold fold_code x ≢ casefold fold_code t.name
  fold-ne_earlier earlier [] h m n e = absurd (Memᴰ.not-nil n)
  fold-ne_earlier earlier (u ∷ ts) {x} {t} h m (Memᴰ.head p) e =
      let there : Memᴰ (casefold fold_code u.name) (map (casefold fold_code) earlier) =
        Memᴰ.cast (sym (e ∙ ap (λ (v : TaskSpec). casefold fold_code v.name) p))
          (Memᴰ.map (casefold fold_code) m) in
      cc ((is_ordered-cons earlier u ts h).fresh, Memᴰ→contains _ there)
  fold-ne_earlier earlier (u ∷ ts) h m (Memᴰ.tail n) e =
      fold-ne_earlier (u.name ∷ earlier) ts (is_ordered-cons earlier u ts h).rest_ordered
        (Memᴰ.tail m) n e

  -- A name that folds like a task of the catalog names that task.
  pub by_name_of_fold :
      (earlier : List Text) (ts : List TaskSpec) {t : TaskSpec} (name : Text)
      → is_ordered earlier ts ≡ true
      → Memᴰ t ts
      → casefold fold_code t.name ≡ casefold fold_code name
      → by_name fold_code name ts ≡ some t
  unfolding by_name
  by_name_of_fold earlier [] name h m e = absurd (Memᴰ.not-nil m)
  by_name_of_fold earlier (u ∷ ts) {t} name h (Memᴰ.head p) e = ground arith
  by_name_of_fold earlier (u ∷ ts) {t} name h (Memᴰ.tail m) e =
      let rest = (is_ordered-cons earlier u ts h).rest_ordered in
      let ih = by_name_of_fold (u.name ∷ earlier) ts name rest m e in
      let other : casefold fold_code u.name ≢ casefold fold_code name =
        λ same. fold-ne_earlier (u.name ∷ earlier) ts rest (Memᴰ.head refl) m (same ∙ sym e) in
      ground (arith, ih, other)

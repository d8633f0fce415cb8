-- ===== src/Catalog/RunOrder.antt =====
-- The order of a resolved list, and that a second resolution changes nothing, for a catalog in
-- order.
use mathlib.Core.List.Memᴰ
use mathlib.Core.List.Nodup
use mathlib.Core.List.{Sublist, Nodup, Nodup-cons, Nodup-nil}
use mathlib.Core.HLevel.{⊥_prop}
use mathlib.Core.Logic.{∥∥₁_elim}
use mathlib.Core.Option.{some-injective}
use pyntara.Shared.{
  ℕ, ◌≡◌, refl, sym, ◌∙◌, ap, subst, inl, inr, true, some, List, [], ◌∷◌, map, Memᴰ, filter, all→,
  map-filter-Sublistᴰ, contains, contains→Memᴰ, Bool-cases, nat_eq, list_eq,
}
use pyntara.Text.{Text, casefold}
use pyntara.Catalog.Data.{TaskSpec}
use pyntara.Catalog.{by_name, is_included, resolve}
use pyntara.Catalog.Depends.{DependsOn}
use pyntara.Catalog.Order.{is_ordered, is_ordered-cons, by_name_of_fold, fold-ne_earlier}
use pyntara.Catalog.Resolve.{IsNeeded, is_included→, →is_included}

-- Each name stands behind every dependency of its task: `seen` and the names before it hold them.
abbrev pub IsRunnable : (ℕ → Text) → List TaskSpec → List Text → List Text → Type 0
IsRunnable fold_code tasks seen [] = Unit
IsRunnable fold_code tasks seen (name ∷ names) =
    ((task : TaskSpec)
      → by_name fold_code name tasks ≡ some task
      → (dep : Text) → Memᴰ dep task.depends
      → Memᴰ dep seen)
    × IsRunnable fold_code tasks (name ∷ seen) names

module _ (fold_code : ℕ → Text) (selected : List Text) (tasks : List TaskSpec)
    (ordered : is_ordered fold_code [] tasks ≡ true) where
  named_self : {task : TaskSpec} → Memᴰ task tasks → by_name fold_code task.name tasks ≡ some task
  named_self {task} m = by_name_of_fold fold_code [] tasks task.name ordered m refl

  -- A dependency of an included task is needed.
  included-IsNeeded :
      {task : TaskSpec} {dep : Text}
      → Memᴰ task tasks
      → is_included fold_code selected tasks task ≡ true
      → Memᴰ dep task.depends
      → IsNeeded fold_code selected tasks dep
  included-IsNeeded {task} m included d =
      elim (is_included→ fold_code selected tasks task included) [
        | inl (name, s, e) ↦ (
          name,
          s,
          DependsOn.direct task (by_name_of_fold fold_code [] tasks name ordered m (sym e)) d,
        )
        | inr (name, s, way) ↦ (name, s, DependsOn.through task way (named_self m) d)
      ]

  -- The walk down the catalog: `seen` holds the needed names among the `earlier` ones.
  included-IsRunnable :
      (earlier seen : List Text) (ts : List TaskSpec)
      → is_ordered fold_code earlier ts ≡ true
      → ((task : TaskSpec) → Memᴰ task ts → Memᴰ task tasks)
      → ((dep : Text) → Memᴰ dep earlier → IsNeeded fold_code selected tasks dep → Memᴰ dep seen)
      → IsRunnable fold_code tasks seen
          (map (λ t. t.name) (filter (is_included fold_code selected tasks) ts))
  included-IsRunnable earlier seen [] h sub known = tt
  included-IsRunnable earlier seen (t ∷ ts) h sub known =
      let parts = is_ordered-cons fold_code earlier t ts h in
      let down = λ (task : TaskSpec) (m : Memᴰ task ts). sub task (Memᴰ.tail m) in
      elim (Bool-cases (is_included fold_code selected tasks t)) [
        | inl keep ↦ rw keep (
          λ task named dep d.
              let same = some-injective _ _ (sym named ∙ named_self (sub t (Memᴰ.head refl))) in
              let d' : Memᴰ dep t.depends = subst (λ (u : TaskSpec). Memᴰ dep u.depends) same d in
              known dep (contains→Memᴰ dep earlier (all→ (contains earlier) parts.depends_above d'))
                (included-IsNeeded (sub t (Memᴰ.head refl)) keep d'),
          included-IsRunnable (t.name ∷ earlier) (t.name ∷ seen) ts parts.rest_ordered down
              (λ dep m n. elim (Memᴰ.cases_cons m) [
                | inl e ↦ Memᴰ.head e
                | inr old ↦ Memᴰ.tail (known dep old n)
              ]),
        )
        | inr skip ↦ rw skip (
            included-IsRunnable (t.name ∷ earlier) seen ts parts.rest_ordered down (λ dep m n.
              elim (Memᴰ.cases_cons m) [
                | inl e ↦
                    let needed = subst (IsNeeded fold_code selected tasks) e n in
                    absurd (cc (skip, →is_included fold_code selected tasks t (inr needed)))
                | inr old ↦ known dep old n
              ]))
      ]

  -- In the resolved list of a catalog in order, every task stands behind all its dependencies.
  pub resolve-IsRunnable : IsRunnable fold_code tasks [] (resolve fold_code selected tasks)
  unfolding resolve
  resolve-IsRunnable =
      included-IsRunnable [] [] tasks ordered (λ task m. m) (λ dep m n. absurd (Memᴰ.not-nil m))

-- The names of a catalog in order are distinct.
names-Nodup :
    (fold_code : ℕ → Text) (earlier : List Text) (ts : List TaskSpec)
    → is_ordered fold_code earlier ts ≡ true
    → Nodup (map (λ (t : TaskSpec). t.name) ts)
names-Nodup fold_code earlier [] h = Nodup-nil
names-Nodup fold_code earlier (t ∷ ts) h =
    let parts = is_ordered-cons fold_code earlier t ts h in
    Nodup-cons.1 (
      λ m. ∥∥₁_elim m ⊥_prop (λ d.
          let (u, there, e) = Memᴰ.of_map (λ (v : TaskSpec). v.name) ts d in
          fold-ne_earlier fold_code (t.name ∷ earlier) ts parts.rest_ordered (Memᴰ.head refl) there
            (ap (casefold fold_code) (sym e))),
      names-Nodup fold_code (t.name ∷ earlier) ts parts.rest_ordered,
    )

module _ (fold_code : ℕ → Text) (selected : List Text) (tasks : List TaskSpec)
    (ordered : is_ordered fold_code [] tasks ≡ true) where
  -- A resolved list is a part of the catalog in the catalog's order, and names nothing twice.
  resolve-sublist :
      Sublist (resolve fold_code selected tasks) (map (λ t. t.name) tasks)
      × Nodup (resolve fold_code selected tasks)
  unfolding resolve
  resolve-sublist =
      let part =
        ∣ map-filter-Sublistᴰ (is_included fold_code selected tasks) (λ (t : TaskSpec). t.name)
          tasks ∣₁ in
      (part, Nodup.sublist part (names-Nodup fold_code [] tasks ordered))

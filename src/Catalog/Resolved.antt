-- ===== src/Catalog/Resolved.antt =====
-- A list that `resolve` returned, given to `resolve` again.
use pyntara.Shared.{
  ℕ, ◌≡◌, refl, sym, ◌∙◌, ap, subst, ◌⊎◌, inl, inr, true, List, [], map, Memᴰ, filter_congr,
  Bool-ext, nat_eq, list_eq,
}
use mathlib.Core.Option.{some-injective}
use pyntara.Text.{Text, casefold}
use pyntara.Catalog.Data.{TaskSpec}
use pyntara.Catalog.{is_included, resolve}
use pyntara.Catalog.Depends.{DependsOn, DependsOn-congr, DependsOn-trans}
use pyntara.Catalog.Order.{is_ordered, by_name_of_fold}
use pyntara.Catalog.Resolve.{IsSelected, IsNeeded, is_included→, →is_included, mem-resolve}

congr_of_included :
    (fold_code : ℕ → Text) (xs ys : List Text) (tasks : List TaskSpec)
    → ((task : TaskSpec)
        → Memᴰ task tasks
        → is_included fold_code xs tasks task ≡ is_included fold_code ys tasks task)
    → resolve fold_code xs tasks ≡ resolve fold_code ys tasks
unfolding resolve
congr_of_included fold_code xs ys tasks same =
    ap (map (λ (t : TaskSpec). t.name))
      (filter_congr (is_included fold_code xs tasks) (is_included fold_code ys tasks) tasks same)

module _ (fold_code : ℕ → Text) (selected : List Text) (tasks : List TaskSpec)
    (ordered : is_ordered fold_code [] tasks ≡ true) where
  -- A dependency of a selected or needed task is needed.
  extend_need :
      {task : TaskSpec} {dep : Text}
      → Memᴰ task tasks
      → IsSelected fold_code selected tasks task ⊎ IsNeeded fold_code selected tasks task.name
      → DependsOn fold_code tasks task.name dep
      → IsNeeded fold_code selected tasks dep
  extend_need {task} m (inl (name, s, e)) d =
      let same =
        by_name_of_fold fold_code [] tasks task.name ordered m refl
        ∙ sym (by_name_of_fold fold_code [] tasks name ordered m (sym e)) in
      (name, s, DependsOn-congr fold_code tasks same d)
  extend_need m (inr (name, s, way)) d = (name, s, DependsOn-trans fold_code tasks way d)

  abbrev again : List Text
  again = resolve fold_code selected tasks

  included_again→ :
      (task : TaskSpec)
      → Memᴰ task tasks
      → is_included fold_code again tasks task ≡ true
      → is_included fold_code selected tasks task ≡ true
  included_again→ task m h = elim (is_included→ fold_code again tasks task h) [
    | inl (name, n, e) ↦
        let (other, there, named, why) = (mem-resolve fold_code selected tasks name).0 n in
        let same : other ≡ task = some-injective _ _ (
          sym
            (by_name_of_fold fold_code [] tasks name ordered there (ap (casefold fold_code) named))
          ∙ by_name_of_fold fold_code [] tasks name ordered m (sym e)) in
        →is_included fold_code selected tasks task (
          subst
            (λ (t : TaskSpec).
              IsSelected fold_code selected tasks t ⊎ IsNeeded fold_code selected tasks t.name)
            same why)
    | inr (name, n, d) ↦
        let (other, there, named, why) = (mem-resolve fold_code selected tasks name).0 n in
        let d' = subst (λ (k : Text). DependsOn fold_code tasks k task.name) (sym named) d in
        →is_included fold_code selected tasks task (inr (extend_need there why d'))
  ]

  included→again :
      (task : TaskSpec)
      → Memᴰ task tasks
      → is_included fold_code selected tasks task ≡ true
      → is_included fold_code again tasks task ≡ true
  included→again task m h =
      let why = is_included→ fold_code selected tasks task h in
      let there = (mem-resolve fold_code selected tasks task.name).1 (task, m, refl, why) in
      →is_included fold_code again tasks task (inl (task.name, there, refl))

  -- In a catalog in order a resolved list resolves to itself: the run set is closed.
  pub resolve-resolve :
      resolve fold_code (resolve fold_code selected tasks) tasks ≡ resolve fold_code selected tasks
  resolve-resolve =
      let same : (task : TaskSpec)
          → Memᴰ task tasks
          → is_included fold_code again tasks task ≡ is_included fold_code selected tasks task =
        λ task m. Bool-ext _ _ (included_again→ task m) (included→again task m) in
      congr_of_included fold_code again selected tasks same

-- ===== src/Catalog/Resolve.antt =====
-- `resolve`: what it holds, in which order, and that a second resolution changes nothing.
use mathlib.Core.List.Memᴰ
use pyntara.Shared.{
  ℕ, ◌≡◌, sym, ◌↔◌, ◌⊎◌, inl, inr, true, List, map, Memᴰ, arith, any→Memᴰ, Memᴰ→any, filter→Memᴰ,
  Memᴰ→filter, contains, contains→Memᴰ, Memᴰ→contains, Bool-cases, nat_eq, list_eq,
}
use pyntara.Text.{Text, casefold}
use pyntara.Catalog.Data.{TaskSpec}
use pyntara.Catalog.{dependencies_of, is_included, resolve}
use pyntara.Catalog.Depends.{DependsOn, mem-dependencies_of}

module _ (fold_code : ℕ → Text) (selected : List Text) (tasks : List TaskSpec) where
  abbrev pub IsSelected : TaskSpec → Type 0
  IsSelected task =
      (name : Text) × Memᴰ name selected × (casefold fold_code name ≡ casefold fold_code task.name)

  abbrev pub IsNeeded : Text → Type 0
  IsNeeded dep = (name : Text) × Memᴰ name selected × DependsOn fold_code tasks name dep

module _ (fold_code : ℕ → Text) (selected : List Text) (tasks : List TaskSpec) where
  pub is_included→ :
      (task : TaskSpec)
      → is_included fold_code selected tasks task ≡ true
      → IsSelected fold_code selected tasks task ⊎ IsNeeded fold_code selected tasks task.name
  unfolding is_included
  is_included→ task h =
      elim (Bool-cases
        (contains (map (casefold fold_code) selected) (casefold fold_code task.name))) [
          | inl chosen ↦
              let (name, m, e) =
                Memᴰ.of_map (casefold fold_code) selected (contains→Memᴰ _ _ chosen) in
              inl (name, m, e)
          | inr other ↦
              let (name, m, e) =
                any→Memᴰ (λ s. contains (dependencies_of fold_code s tasks) task.name) selected
                  (ground arith) in
              inr (
                name,
                m,
                (mem-dependencies_of fold_code tasks name task.name).0 (contains→Memᴰ _ _ e),
              )
        ]

  pub →is_included :
      (task : TaskSpec)
      → IsSelected fold_code selected tasks task ⊎ IsNeeded fold_code selected tasks task.name
      → is_included fold_code selected tasks task ≡ true
  unfolding is_included
  →is_included task (inl (name, m, e)) =
      rw (Memᴰ→contains _ (Memᴰ.cast (sym e) (Memᴰ.map (casefold fold_code) m)))
  →is_included task (inr (name, m, d)) =
      let there =
        Memᴰ→any (λ s. contains (dependencies_of fold_code s tasks) task.name) m
          (Memᴰ→contains task.name ((mem-dependencies_of fold_code tasks name task.name).1 d)) in
      ground (arith, there)

  -- The resolved list holds the name of a task exactly when the task is in the catalog and is
  -- selected, by a name that folds like its own, or is a dependency of a selected name.
  pub mem-resolve :
      (name : Text)
      → Memᴰ name (resolve fold_code selected tasks) ↔ (
          (task : TaskSpec) × Memᴰ task tasks
          × (task.name ≡ name)
          × (IsSelected fold_code selected tasks task
              ⊎ IsNeeded fold_code selected tasks task.name))
  unfolding resolve
  mem-resolve name = (
    λ m.
        let (task, kept, e) = Memᴰ.of_map (λ (t : TaskSpec). t.name) _ m in
        let (there, included) = filter→Memᴰ (is_included fold_code selected tasks) tasks kept in
        (task, there, e, is_included→ task included),
    λ (task, there, e, why). Memᴰ.cast (sym e) (
        Memᴰ.map (λ (t : TaskSpec). t.name)
          (Memᴰ→filter (is_included fold_code selected tasks) tasks there (→is_included task why))),
  )

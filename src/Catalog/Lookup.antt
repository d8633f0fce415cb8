-- ===== src/Catalog/Lookup.antt =====
-- `by_name`: the first task of the catalog whose name folds like the name asked for.
use mathlib.Core.List.Memᴰ
use mathlib.Core.Option.{some-injective}
use pyntara.Shared.{
  ℕ, ◌≡◌, sym, subst, ◌≢◌, inl, inr, none, some, List, [], ◌∷◌, Memᴰ, arith, Bool-cases, ◌==◌,
  nat_eq, list_eq,
}
use pyntara.Text.{Text, casefold}
use pyntara.Catalog.Data.{TaskSpec}
use pyntara.Catalog.{by_name, all_depends}

pub all_depends-Memᴰ :
    (tasks : List TaskSpec) {task : TaskSpec} {dep : Text}
    → Memᴰ task tasks
    → Memᴰ dep task.depends
    → Memᴰ dep (all_depends tasks)
all_depends-Memᴰ [] t m = absurd (Memᴰ.not-nil t)
all_depends-Memᴰ (first ∷ tasks) {dep = dep} (Memᴰ.head e) m =
    Memᴰ.append_left (all_depends tasks) (subst (λ (t : TaskSpec). Memᴰ dep t.depends) e m)
all_depends-Memᴰ (first ∷ tasks) (Memᴰ.tail t) m =
    Memᴰ.append_right first.depends (all_depends-Memᴰ tasks t m)

module _ (fold_code : ℕ → Text) (name : Text) where
  -- The answer is a task of the catalog that folds like `name`.
  pub by_name-Memᴰ :
      (tasks : List TaskSpec) {task : TaskSpec}
      → by_name fold_code name tasks ≡ some task
      → Memᴰ task tasks
  unfolding by_name
  by_name-Memᴰ [] named = absurd (cc)
  by_name-Memᴰ (first ∷ tasks) {task} named =
      elim (Bool-cases (casefold fold_code first.name == casefold fold_code name)) [
        | inl same ↦ Memᴰ.head (some-injective _ _ (sym (rw (same, by_name) at named)))
        | inr other ↦ Memᴰ.tail (by_name-Memᴰ tasks (rw (other, by_name) at named))
      ]

  pub by_name-fold :
      (tasks : List TaskSpec) {task : TaskSpec}
      → by_name fold_code name tasks ≡ some task
      → casefold fold_code task.name ≡ casefold fold_code name
  unfolding by_name
  by_name-fold [] named = absurd (cc)
  by_name-fold (first ∷ tasks) {task} named = ground (arith, by_name-fold tasks {task = task})

  -- No task folds like a name that is not found.
  pub by_name-none :
      (tasks : List TaskSpec)
      → by_name fold_code name tasks ≡ none
      → {task : TaskSpec} → Memᴰ task tasks
      → casefold fold_code task.name ≢ casefold fold_code name
  unfolding by_name
  by_name-none [] absent m e = Memᴰ.not-nil m
  by_name-none (first ∷ tasks) absent {task} (Memᴰ.head p) e = ground arith
  by_name-none (first ∷ tasks) absent {task} (Memᴰ.tail m) e = by_name-none tasks (ground arith) m e

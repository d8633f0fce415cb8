-- ===== src/Catalog/Depends.antt =====
-- `_dependencies_of` against the dependency relation of the catalog.
use mathlib.Core.List.Memᴰ
use pyntara.Shared.{
  ℕ, zero, suc, ◌+◌, ◌≤◌, ◌≡◌, refl, sym, subst, ◌∙◌, ◌↔◌, ◌⊎◌, inl, inr, Option, none, some, List,
  [], ◌∷◌, Memᴰ, arith, length, contains, length-filter, not, nat_eq, list_eq,
}
use mathlib.Core.Option.{some-injective}
use pyntara.Text.{Text}
use pyntara.Catalog.Data.{TaskSpec}
use pyntara.Catalog.{add_new, by_name, visit, walk, dependencies_of, all_depends}
use pyntara.Catalog.Lookup.{by_name-Memᴰ, all_depends-Memᴰ}
use pyntara.Catalog.AddNew.{
  found-add_new, stack-add_new, deps-add_new, found_of_add_new, stack_of_add_new, unseen,
  add_new_measure,
}

depends-Memᴰ :
    (fold_code : ℕ → Text) (tasks : List TaskSpec) (name : Text) {dep : Text} {task : TaskSpec}
    → by_name fold_code name tasks ≡ some task
    → Memᴰ dep task.depends
    → Memᴰ dep (all_depends tasks)
depends-Memᴰ fold_code tasks name {dep = dep} named m =
    all_depends-Memᴰ tasks (by_name-Memᴰ fold_code name tasks named) m

module _ (fold_code : ℕ → Text) (tasks : List TaskSpec) where
  -- The task that `name` names lists `dep`, or a task that lists `dep` in its turn.
  pub data DependsOn (name : Text) : Text → Type 0 where
    direct :
        {dep : Text} (task : TaskSpec)
        → by_name fold_code name tasks ≡ some task
        → Memᴰ dep task.depends
        → DependsOn name dep
    through :
        {mid dep : Text} (task : TaskSpec)
        → DependsOn name mid
        → by_name fold_code mid tasks ≡ some task
        → Memᴰ dep task.depends
        → DependsOn name dep

  -- What a task depends on hangs on the task that its name finds.
  pub DependsOn-congr :
      {a b dep : Text}
      → by_name fold_code a tasks ≡ by_name fold_code b tasks
      → DependsOn a dep
      → DependsOn b dep
  DependsOn-congr e (direct task named m) = direct task (sym e ∙ named) m
  DependsOn-congr e (through task d named m) = through task (DependsOn-congr e d) named m

  pub DependsOn-trans : {a b dep : Text} → DependsOn a b → DependsOn b dep → DependsOn a dep
  DependsOn-trans d (direct task named m) = through task d named m
  DependsOn-trans d (through task way named m) = through task (DependsOn-trans d way) named m

  -- Every dependency of the task that `x` names is found.
  abbrev IsExpanded : List Text → Text → Type 0
  IsExpanded found x =
      (task : TaskSpec)
      → by_name fold_code x tasks ≡ some task
      → (dep : Text) → Memᴰ dep task.depends
      → Memᴰ dep found

  record Inv (root : Text) (found stack : List Text) : Type 0 where
    found_sound : (x : Text) → Memᴰ x found → DependsOn root x
    stack_sound : (x : Text) → Memᴰ x stack → (x ≡ root) ⊎ DependsOn root x
    root_done : Memᴰ root stack ⊎ IsExpanded found root
    found_done : (x : Text) → Memᴰ x found → Memᴰ x stack ⊎ IsExpanded found x

  IsExpanded-mono :
      {found found' : List Text} (x : Text)
      → ((y : Text) → Memᴰ y found → Memᴰ y found')
      → IsExpanded found x
      → IsExpanded found' x
  IsExpanded-mono x grow done task e dep m = grow dep (done task e dep m)

  -- A name that was on the stack or done stays so, once the top of the stack is done.
  popped :
      {current x : Text} {found found' stack stack' : List Text}
      → ((y : Text) → Memᴰ y found → Memᴰ y found')
      → ((y : Text) → Memᴰ y stack → Memᴰ y stack')
      → IsExpanded found' current
      → Memᴰ x (current ∷ stack) ⊎ IsExpanded found x
      → Memᴰ x stack' ⊎ IsExpanded found' x
  popped {found' = found'} grow keep done (inl (Memᴰ.head e)) =
      inr (subst (IsExpanded found') (sym e) done)
  popped grow keep done (inl (Memᴰ.tail m)) = inl (keep _ m)
  popped grow keep done (inr old) = inr (IsExpanded-mono _ grow old)

  from_root :
      {root current dep : Text} (task : TaskSpec)
      → (current ≡ root) ⊎ DependsOn root current
      → by_name fold_code current tasks ≡ some task
      → Memᴰ dep task.depends
      → DependsOn root dep
  from_root {dep = dep} task (inl e) named m = direct task (rw e at named) m
  from_root task (inr d) named m = through task d named m

  step-Inv :
      {root current : Text} {found stack : List Text} (o : Option TaskSpec)
      → by_name fold_code current tasks ≡ o
      → Inv root found (current ∷ stack)
      → Inv root (visit o found stack).0 (visit o found stack).1
  unfolding visit
  step-Inv {current = current} {found = found} none named inv =
      let done : IsExpanded found current = λ task e dep m. absurd (cc) in
      record {
        found_sound = inv.found_sound;
        stack_sound = λ x m. inv.stack_sound x (Memᴰ.tail m);
        root_done = popped (λ y m. m) (λ y m. m) done inv.root_done;
        found_done = λ x m. popped (λ y n. n) (λ y n. n) done (inv.found_done x m);
      }
  step-Inv {root} {current} {found} {stack} (some task) named inv =
      let grow = λ (y : Text) (m : Memᴰ y found). found-add_new task.depends found stack m in
      let keep = λ (y : Text) (m : Memᴰ y stack). stack-add_new task.depends found stack m in
      let origin = inv.stack_sound current (Memᴰ.head refl) in
      let done : IsExpanded (add_new task.depends found stack).0 current = λ other e dep m.
        deps-add_new task.depends found stack
          (subst (λ (t : TaskSpec). Memᴰ dep t.depends) (some-injective _ _ (sym e ∙ named)) m) in
      record {
        found_sound = λ x m. elim (found_of_add_new task.depends found stack m) [
          | inl old ↦ inv.found_sound x old
          | inr (d, _) ↦ from_root task origin named d
        ];
        stack_sound = λ x m. elim (stack_of_add_new task.depends found stack m) [
          | inl old ↦ inv.stack_sound x (Memᴰ.tail old)
          | inr d ↦ inr (from_root task origin named d)
        ];
        root_done = popped grow keep done inv.root_done;
        found_done = λ x m. elim (found_of_add_new task.depends found stack m) [
          | inl old ↦ popped grow keep done (inv.found_done x old)
          | inr (_, s) ↦ inl s
        ];
      }

  visit_measure :
      (current : Text) (o : Option TaskSpec)
      → by_name fold_code current tasks ≡ o
      → (found stack : List Text)
      → unseen (all_depends tasks) (visit o found stack).0 + length (visit o found stack).1
        ≤ unseen (all_depends tasks) found + length stack
  unfolding visit
  visit_measure current none named found stack = omega arith
  visit_measure current (some task) named found stack =
      add_new_measure (all_depends tasks) task.depends found stack
        (λ x m. depends-Memᴰ fold_code tasks current named m)

  -- A walk that starts with enough fuel ends, and its answer satisfies the invariant.
  walk-Inv :
      (fuel : ℕ) {root : Text} (found stack : List Text)
      → unseen (all_depends tasks) found + length stack ≤ fuel
      → Inv root found stack
      → (result : List Text) × (walk fold_code fuel tasks found stack ≡ some result)
        × Inv root result []
  unfolding walk
  walk-Inv fuel found [] enough inv = (found, refl, inv)
  walk-Inv zero found (current ∷ stack) enough inv = absurd (omega arith)
  walk-Inv (suc fuel) found (current ∷ stack) enough inv =
      let o = by_name fold_code current tasks in
      walk-Inv fuel (visit o found stack).0 (visit o found stack).1
        (omega (arith, visit_measure current o refl found stack)) (step-Inv o refl inv)

  Inv-start : (name : Text) → Inv name [] (name ∷ [])
  Inv-start name = record {
    found_sound = λ x m. absurd (Memᴰ.not-nil m);
    stack_sound = λ x m. inl (Memᴰ.eq_of_singleton m);
    root_done = inl (Memᴰ.head refl);
    found_done = λ x m. absurd (Memᴰ.not-nil m);
  }

  walk_from_name :
      (name : Text)
      → (result : List Text) × (walk fold_code
            (suc (length (all_depends tasks)))
            tasks
            []
            (name ∷ [])
          ≡ some result)
        × Inv name result []
  walk_from_name name =
      walk-Inv (suc (length (all_depends tasks))) [] (name ∷ [])
        (omega (arith, length-filter (λ d. not (contains [] d)) (all_depends tasks)))
        (Inv-start name)

  -- The loop of `_dependencies_of` ends for every name and every catalog, cycles included: the
  -- fuel of the model is never used up.
  pub dependencies_of-total :
      (name : Text)
      → walk fold_code (suc (length (all_depends tasks))) tasks [] (name ∷ [])
        ≡ some (dependencies_of fold_code name tasks)
  unfolding dependencies_of
  dependencies_of-total name = let (result, ends, _) = walk_from_name name in rw ends

  dependencies_of-Inv : (name : Text) → Inv name (dependencies_of fold_code name tasks) []
  unfolding dependencies_of
  dependencies_of-Inv name = let (result, ends, inv) = walk_from_name name in rw ends inv

  emptied : {x : Text} {found : List Text} → Memᴰ x [] ⊎ IsExpanded found x → IsExpanded found x
  emptied (inl m) = absurd (Memᴰ.not-nil m)
  emptied (inr done) = done

  DependsOn-found :
      {name dep : Text} → DependsOn name dep → Memᴰ dep (dependencies_of fold_code name tasks)
  DependsOn-found {name} (direct task named m) =
      emptied (dependencies_of-Inv name).root_done task named _ m
  DependsOn-found {name} (through {mid = mid} task d named m) =
      emptied ((dependencies_of-Inv name).found_done mid (DependsOn-found d)) task named _ m

  -- The answer of `_dependencies_of` holds exactly the names that the named task depends on,
  -- directly or through other tasks.
  pub mem-dependencies_of :
      (name dep : Text) → Memᴰ dep (dependencies_of fold_code name tasks) ↔ DependsOn name dep
  mem-dependencies_of name dep =
      (λ m. (dependencies_of-Inv name).found_sound dep m, λ d. DependsOn-found d)

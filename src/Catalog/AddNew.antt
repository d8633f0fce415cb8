-- ===== src/Catalog/AddNew.antt =====
-- The inner loop of `_dependencies_of`: what it keeps and what it adds.
use mathlib.Core.List.Memᴰ
use pyntara.Shared.{
  ℕ, ◌+◌, ◌≤◌, ◌≡◌, refl, ◌⊎◌, inl, inr, false, not, List, [], ◌∷◌, Memᴰ, arith, filter, length,
  contains, contains→Memᴰ, Bool-cases, nat_eq, list_eq,
}
use pyntara.Text.{Text}
use pyntara.Catalog.{add_new}

pub found-add_new :
    (deps found stack : List Text) {x : Text} → Memᴰ x found → Memᴰ x (add_new deps found stack).0
unfolding add_new
found-add_new [] found stack m = m
found-add_new (dep ∷ deps) found stack m = elim (Bool-cases (contains found dep)) [
  | inl old ↦ rw (old, add_new) (found-add_new deps found stack m)
  | inr new ↦ rw (new, add_new) (found-add_new deps (dep ∷ found) (dep ∷ stack) (Memᴰ.tail m))
]

pub stack-add_new :
    (deps found stack : List Text) {x : Text} → Memᴰ x stack → Memᴰ x (add_new deps found stack).1
unfolding add_new
stack-add_new [] found stack m = m
stack-add_new (dep ∷ deps) found stack m = elim (Bool-cases (contains found dep)) [
  | inl old ↦ rw (old, add_new) (stack-add_new deps found stack m)
  | inr new ↦ rw (new, add_new) (stack-add_new deps (dep ∷ found) (dep ∷ stack) (Memᴰ.tail m))
]

pub deps-add_new :
    (deps found stack : List Text) {x : Text} → Memᴰ x deps → Memᴰ x (add_new deps found stack).0
unfolding add_new
deps-add_new [] found stack m = absurd (Memᴰ.not-nil m)
deps-add_new (dep ∷ deps) found stack (Memᴰ.head e) = elim (Bool-cases (contains found dep)) [
  | inl old ↦
      rw (old, add_new) (found-add_new deps found stack (Memᴰ.cast e (contains→Memᴰ dep found old)))
  | inr new ↦ rw (new, add_new) (found-add_new deps (dep ∷ found) (dep ∷ stack) (Memᴰ.head e))
]
deps-add_new (dep ∷ deps) found stack (Memᴰ.tail m) = elim (Bool-cases (contains found dep)) [
  | inl old ↦ rw (old, add_new) (deps-add_new deps found stack m)
  | inr new ↦ rw (new, add_new) (deps-add_new deps (dep ∷ found) (dep ∷ stack) m)
]

-- What is new in `found` is one of `deps` and stands on the stack.
pub found_of_add_new :
    (deps found stack : List Text) {x : Text}
    → Memᴰ x (add_new deps found stack).0
    → Memᴰ x found ⊎ (Memᴰ x deps × Memᴰ x (add_new deps found stack).1)
unfolding add_new
found_of_add_new [] found stack m = inl m
found_of_add_new (dep ∷ deps) found stack {x} m = elim (Bool-cases (contains found dep)) [
  | inl old ↦
      rw (old, add_new)
        (elim (found_of_add_new deps found stack (rw (old, add_new) at m)) [
          | inl f ↦ inl f
          | inr (d, s) ↦ inr (Memᴰ.tail d, s)
        ])
  | inr new ↦
      rw (new, add_new)
        (elim (found_of_add_new deps (dep ∷ found) (dep ∷ stack) {x = x} (rw (new, add_new) at m)) [
          | inl (Memᴰ.head e) ↦
              inr (Memᴰ.head e, stack-add_new deps (dep ∷ found) (dep ∷ stack) (Memᴰ.head e))
          | inl (Memᴰ.tail f) ↦ inl f
          | inr (d, s) ↦ inr (Memᴰ.tail d, s)
        ])
]

pub stack_of_add_new :
    (deps found stack : List Text) {x : Text}
    → Memᴰ x (add_new deps found stack).1
    → Memᴰ x stack ⊎ Memᴰ x deps
unfolding add_new
stack_of_add_new [] found stack m = inl m
stack_of_add_new (dep ∷ deps) found stack {x} m = elim (Bool-cases (contains found dep)) [
  | inl old ↦ elim (stack_of_add_new deps found stack {x = x} (rw (old, add_new) at m)) [
    | inl s ↦ inl s
    | inr d ↦ inr (Memᴰ.tail d)
  ]
  | inr new ↦
      elim (stack_of_add_new deps (dep ∷ found) (dep ∷ stack) {x = x} (rw (new, add_new) at m)) [
        | inl (Memᴰ.head e) ↦ inr (Memᴰ.head e)
        | inl (Memᴰ.tail s) ↦ inl s
        | inr d ↦ inr (Memᴰ.tail d)
      ]
]

-- How many entries of `universe` are not found yet.
abbrev pub unseen : List Text → List Text → ℕ
unseen universe found = length (filter (λ d. not (contains found d)) universe)

unseen-cons-le :
    (universe found : List Text) (dep : Text)
    → unseen universe (dep ∷ found) ≤ unseen universe found
unseen-cons-le [] found dep = omega arith
unseen-cons-le (d ∷ universe) found dep = ground (arith, unseen-cons-le universe found dep)

unseen-cons-lt :
    (universe found : List Text) {dep : Text}
    → Memᴰ dep universe
    → contains found dep ≡ false
    → unseen universe (dep ∷ found) + 1 ≤ unseen universe found
unseen-cons-lt [] found m new = absurd (Memᴰ.not-nil m)
unseen-cons-lt (d ∷ universe) found {dep} (Memᴰ.head e) new =
    ground (arith, unseen-cons-le universe found dep)
unseen-cons-lt (d ∷ universe) found {dep} (Memᴰ.tail m) new =
    ground (arith, unseen-cons-lt universe found m new)

-- Each name that joins the stack leaves the unseen ones.
pub add_new_measure :
    (universe deps found stack : List Text)
    → ((x : Text) → Memᴰ x deps → Memᴰ x universe)
    → unseen universe (add_new deps found stack).0 + length (add_new deps found stack).1
      ≤ unseen universe found + length stack
unfolding add_new
add_new_measure universe [] found stack known = omega arith
add_new_measure universe (dep ∷ deps) found stack known =
    let later : (x : Text) → Memᴰ x deps → Memᴰ x universe = λ x m. known x (Memᴰ.tail m) in
    elim (Bool-cases (contains found dep)) [
      | inl old ↦ rw (old, add_new) (add_new_measure universe deps found stack later)
      | inr new ↦
          rw (new, add_new)
            (omega (
              arith,
              add_new_measure universe deps (dep ∷ found) (dep ∷ stack) later,
              unseen-cons-lt universe found (known dep (Memᴰ.head refl)) new,
            ))
    ]

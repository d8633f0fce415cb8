-- ===== src/Entry/Chosen.antt =====
-- Which tasks a run chooses and which of them it forces.
use mathlib.Core.List.Memᴰ
use mathlib.Core.List.Perm
use mathlib.Core.List.{Perm, perm_middle, Sublist, Sublistᴰ}
use pyntara.Shared.{
  ℕ, ◌≡◌, refl, sym, ◌↔◌, ◌⊎◌, inl, inr, Bool, true, false, not, List, [], ◌∷◌, ◌++◌, Memᴰ, arith,
  filter, any, any→Memᴰ, Memᴰ→any, filter→Memᴰ, Memᴰ→filter, contains→Memᴰ, Memᴰ→contains,
  Bool-cases, ◌==◌, nat_eq, list_eq,
}
use pyntara.Text.{Text, casefold}
use pyntara.Catalog.Data.{TaskSpec}
use pyntara.Catalog.{resolve}
use pyntara.Entry.Selection.{force_all_keyword}
use pyntara.Entry.Tasks.{is_asked_for, chosen, all_keyword, forced}

filter-perm {ℓ} :
    {A : Type ℓ} (p : A → Bool) (xs : List A) → Perm (filter p xs ++ filter (λ x. not (p x)) xs) xs
filter-perm p [] = Perm.rfl
filter-perm p (x ∷ xs) = elim (Bool-cases (p x)) [
  | inl keep ↦ rw keep (Perm.cons x (filter-perm p xs))
  | inr skip ↦ rw skip (
      Perm.trans (perm_middle (filter p xs) (filter (λ y. not (p y)) xs))
        (Perm.cons x (filter-perm p xs)))
]

filter-Sublistᴰ {ℓ} : {A : Type ℓ} (p : A → Bool) (xs : List A) → Sublistᴰ (filter p xs) xs
filter-Sublistᴰ p [] = Sublistᴰ.slnil
filter-Sublistᴰ p (x ∷ xs) = elim (Bool-cases (p x)) [
  | inl keep ↦ rw keep (Sublistᴰ.cons-cons refl (filter-Sublistᴰ p xs))
  | inr skip ↦ rw skip (Sublistᴰ.cons (filter-Sublistᴰ p xs))
]

module _ (fold_code : ℕ → Text) where
  -- Some of the written names folds like `name`.
  abbrev pub IsAskedFor : List Text → Text → Type 0
  IsAskedFor written name =
      (w : Text) × Memᴰ w written × (casefold fold_code w ≡ casefold fold_code name)

  is_asked_for→ :
      (written : List Text) (name : Text)
      → is_asked_for fold_code written name ≡ true
      → IsAskedFor written name
  unfolding is_asked_for
  is_asked_for→ written name h = Memᴰ.of_map (casefold fold_code) written (contains→Memᴰ _ _ h)

  →is_asked_for :
      (written : List Text) (name : Text)
      → IsAskedFor written name
      → is_asked_for fold_code written name ≡ true
  unfolding is_asked_for
  →is_asked_for written name (w, m, e) =
      Memᴰ→contains _ (Memᴰ.cast (sym e) (Memᴰ.map (casefold fold_code) m))

  not_asked_for :
      (written : List Text) (name : Text)
      → (¬ IsAskedFor written name)
      → not (is_asked_for fold_code written name) ≡ true
  not_asked_for written name n = elim (Bool-cases (is_asked_for fold_code written name)) [
    | inl asked ↦ absurd (n (is_asked_for→ written name asked))
    | inr other ↦ rw other
  ]

  -- Without dependencies a run keeps the names of the resolved list that were asked for, and reports
  -- the others as omitted, both in the order of the resolved list: together they are that list,
  -- and a name is kept, or omitted, exactly when it is in it and was asked for, or was not.
  pub chosen_without_dependencies :
      (tasks : List TaskSpec) (selected : List Text)
      → (Sublist (chosen fold_code tasks selected false).0 (resolve fold_code selected tasks)
          × Sublist (chosen fold_code tasks selected false).1 (resolve fold_code selected tasks))
        × Perm
            ((chosen fold_code tasks selected false).0 ++ (chosen fold_code tasks selected false).1)
            (resolve fold_code selected tasks)
        × ((name : Text)
            → (Memᴰ name (chosen fold_code tasks selected false).0
                ↔ (Memᴰ name (resolve fold_code selected tasks) × IsAskedFor selected name))
              × (Memᴰ name (chosen fold_code tasks selected false).1
                  ↔ (Memᴰ name (resolve fold_code selected tasks) × (¬ IsAskedFor selected name))))
  unfolding chosen
  chosen_without_dependencies tasks selected =
      let asked = is_asked_for fold_code selected in
      let not_asked = λ (name : Text). not (asked name) in
      let resolved = resolve fold_code selected tasks in
      (
        (∣ filter-Sublistᴰ asked resolved ∣₁, ∣ filter-Sublistᴰ not_asked resolved ∣₁),
        filter-perm asked resolved,
        λ name. (
          (
            λ m. let (r, h) = filter→Memᴰ asked resolved m in (r, is_asked_for→ selected name h),
            λ (r, a). Memᴰ→filter asked resolved r (→is_asked_for selected name a),
          ),
          (
            λ m.
                let (r, h) = filter→Memᴰ not_asked resolved m in
                (r, λ a. cc (h, →is_asked_for selected name a)),
            λ (r, n). Memᴰ→filter not_asked resolved r (not_asked_for selected name n),
          ),
        ),
      )

  -- The forced tasks are the whole run set when one of the written names is the keyword, and
  -- otherwise exactly the names of the run set that were written, in any spelling.
  pub forced_names :
      (written names : List Text)
      → (IsAskedFor written (force_all_keyword) × (forced fold_code written names ≡ names))
        ⊎ ((¬ IsAskedFor written force_all_keyword)
            × ((name : Text)
                → Memᴰ name (forced fold_code written names)
                  ↔ (Memᴰ name names × IsAskedFor written name)))
  unfolding forced
  forced_names written names =
      let is_keyword = λ (n : Text). casefold fold_code n == all_keyword fold_code in
      elim (Bool-cases (any is_keyword written)) [
        | inl all ↦
            let (w, m, e) = any→Memᴰ is_keyword written all in inl ((w, m, ground arith), rw all)
        | inr some_names ↦ inr (
          λ (w, m, e). cc (some_names, Memᴰ→any is_keyword m (ground arith)),
          rw some_names (λ name. (
            λ m.
                let (r, h) = filter→Memᴰ (is_asked_for fold_code written) names m in
                (r, is_asked_for→ written name h),
            λ (r, a).
                Memᴰ→filter (is_asked_for fold_code written) names r (→is_asked_for written name a),
          )),
        )
      ]

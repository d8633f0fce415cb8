-- ===== src/Catalog/Samples.antt =====
-- The catalog functions on a small catalog, and the theorems about them at it.
use pyntara.Shared.{
  suc, ◌≡◌, refl, ◌≢◌, ◌↔◌, ◌⊎◌, true, some, List, [], ◌∷◌, Memᴰ, length, arith, nat_eq, list_eq,
}
use pyntara.Text.{Text, codes, strip, casefold, replace, ascii_fold}
use pyntara.Catalog.Data.{TaskSpec, modes, catalog}
use pyntara.Catalog.{
  canonical_mode_name, all_depends, walk, dependencies_of, resolve, unknown_tasks, default_tasks,
}
use pyntara.Catalog.Depends.{DependsOn, dependencies_of-total, mem-dependencies_of}
use pyntara.Catalog.Order.{is_ordered}
use pyntara.Catalog.Resolve.{IsSelected, IsNeeded, mem-resolve}
use pyntara.Catalog.RunOrder.{IsRunnable, resolve-IsRunnable}
use pyntara.Catalog.Resolved.{resolve-resolve}
use pyntara.Catalog.Names.{mem-unknown_tasks}
use pyntara.Catalog.Shipped.{is_name_char, FixesNames, catalog-IsRunnable}

program : Unit {0}
unfolding dependencies_of resolve canonical_mode_name unknown_tasks default_tasks is_ordered strip
    casefold replace nat_eq list_eq
program = tt

abbrev spec : Text → List Text → List Text → TaskSpec
spec name depends in_modes = record {
  name = name;
  description = [];
  depends = depends;
  modes = in_modes;
}

abbrev swap_task : TaskSpec
swap_task = spec (codes "swap") [] modes

abbrev zram_task : TaskSpec
zram_task = spec (codes "zram") (codes "swap" ∷ []) modes

abbrev vault_task : TaskSpec
vault_task = spec (codes "vault") (codes "zram" ∷ []) (codes "server" ∷ [])

abbrev small : List TaskSpec
small = swap_task ∷ zram_task ∷ spec (codes "tor") [] (codes "desktop" ∷ []) ∷ vault_task ∷ []

-- Two tasks that depend on one another.
abbrev cyclic : List TaskSpec
cyclic = spec (codes "a") (codes "b" ∷ []) [] ∷ spec (codes "b") (codes "a" ∷ []) [] ∷ []

small-is_ordered : is_ordered ascii_fold [] small ≡ true
unfolding program
small-is_ordered = refl

resolve-small :
    resolve ascii_fold (codes "VAULT" ∷ []) small ≡ codes "swap" ∷ codes "zram" ∷ codes "vault" ∷ []
unfolding program
resolve-small = refl

dependencies_of-cyclic : dependencies_of ascii_fold (codes "a") cyclic ≡ codes "a" ∷ codes "b" ∷ []
unfolding program
dependencies_of-cyclic = refl

canonical-small :
    canonical_mode_name ascii_fold (codes " Fast-Desktop ") ≡ some (codes "fast_desktop")
unfolding program
canonical-small = refl

default_tasks-small :
    default_tasks (codes "desktop") small ≡ codes "swap" ∷ codes "zram" ∷ codes "tor" ∷ []
unfolding program
default_tasks-small = refl

-- The theorems at these inputs.
resolve-IsRunnable_example :
    IsRunnable ascii_fold small [] (resolve ascii_fold (codes "VAULT" ∷ []) small)
resolve-IsRunnable_example =
    resolve-IsRunnable ascii_fold (codes "VAULT" ∷ []) small small-is_ordered

mem-resolve_example : Memᴰ (codes "swap") (resolve ascii_fold (codes "VAULT" ∷ []) small) ↔ (
    (task : TaskSpec) × Memᴰ task small
    × (task.name ≡ codes "swap")
    × (IsSelected ascii_fold (codes "VAULT" ∷ []) small task
        ⊎ IsNeeded ascii_fold (codes "VAULT" ∷ []) small task.name))
mem-resolve_example = mem-resolve ascii_fold (codes "VAULT" ∷ []) small (codes "swap")

resolve-resolve_example :
    resolve ascii_fold (resolve ascii_fold (codes "VAULT" ∷ []) small) small
    ≡ resolve ascii_fold (codes "VAULT" ∷ []) small
resolve-resolve_example = resolve-resolve ascii_fold (codes "VAULT" ∷ []) small small-is_ordered

dependencies_of-total_example :
    walk ascii_fold (suc (length (all_depends cyclic))) cyclic [] (codes "a" ∷ [])
    ≡ some (dependencies_of ascii_fold (codes "a") cyclic)
dependencies_of-total_example = dependencies_of-total ascii_fold cyclic (codes "a")

mem-dependencies_of_example :
    Memᴰ (codes "swap") (dependencies_of ascii_fold (codes "vault") small)
    ↔ DependsOn ascii_fold small (codes "vault") (codes "swap")
mem-dependencies_of_example = mem-dependencies_of ascii_fold small (codes "vault") (codes "swap")

ascii_fold-FixesNames : FixesNames ascii_fold
unfolding is_name_char
ascii_fold-FixesNames c h = ground arith

catalog-IsRunnable_example :
    IsRunnable ascii_fold catalog [] (resolve ascii_fold (codes "playwright_setup" ∷ []) catalog)
catalog-IsRunnable_example =
    catalog-IsRunnable ascii_fold ascii_fold-FixesNames (codes "playwright_setup" ∷ [])

mem-unknown_tasks_example :
    Memᴰ (codes "zap") (unknown_tasks ascii_fold (codes "Zram" ∷ codes "zap" ∷ []) small) ↔ (
      Memᴰ (codes "zap") (codes "Zram" ∷ codes "zap" ∷ [])
      × ((task : TaskSpec)
          → Memᴰ task small
          → casefold ascii_fold task.name ≢ casefold ascii_fold (codes "zap")))
mem-unknown_tasks_example =
    mem-unknown_tasks ascii_fold (codes "Zram" ∷ codes "zap" ∷ []) small (codes "zap")

-- ===== src/Entry/Environment.antt =====
-- pyntara.py: reading the environment. `environ` is os.environ, `fold_code` the case folding
-- table of the interpreter.
use pyntara.Shared.{ℕ, Bool, Option, none, some, List, [], ◌∷◌, map, contains, nat_eq, list_eq}
use pyntara.Text.{Text, codes, strip, casefold}

-- ENVIRONMENT_FLAG_TRUE_VALUES of values/engine.py
abbrev pub environment_flag_true_values : List Text
environment_flag_true_values = codes "1" ∷ codes "true" ∷ codes "yes" ∷ []

-- `if not value: return None`
abbrev pub non_empty : Option Text → Option Text
non_empty none = none
non_empty (some []) = none
non_empty (some (c ∷ s)) = some (c ∷ s)

module _ (environ : Text → Option Text) where
  unfoldable pub env : Text → Option Text
  env name = non_empty (environ name)

  -- Unset or blank is None; the answer is stripped.
  unfoldable pub environment_username : Text → Option Text
  environment_username name = elim (environ name) [
    | none ↦ none
    | some value ↦ non_empty (some (strip value))
  ]

  unfoldable pub env_flag : (ℕ → Text) → Text → Bool → Bool
  unfolding env
  env_flag fold_code name default = elim (env name) [
    | none ↦ default
    | some value ↦
        contains (map (casefold fold_code) environment_flag_true_values)
          (casefold fold_code (strip value))
  ]

-- ===== src/Entry/Account.antt =====
-- The account that a run takes for the owner of the desktop.
use pyntara.Shared.{
  ◌≡◌, refl, sym, ap, subst, ◌∙◌, ◌⊎◌, inl, inr, true, Option, none, some, List, [], ◌∷◌, ◌++◌, All,
  arith, Option-cases,
}
use mathlib.Core.Option.{some-injective, none-ne-some}
use pyntara.Text.{Text, is_nonempty}
use pyntara.Entry.Environment.{non_empty}
use pyntara.Entry.Desktop.{
  Accounts, Account, account_home, answer_of, first_answer, candidates,
  get_desktop_username_and_home, declared_username, declared_home_dir,
}

module _ (host : Accounts) where
  -- A signal that names an account with a home directory: neither the name nor the directory of
  -- its entry is empty.
  abbrev pub Names : Option Text → Text × Text → Type 0
  Names signal (name, home) =
      (signal ≡ some name)
      × (is_nonempty name ≡ true)
      × ((entry : Account) × (host.getpwnam name ≡ some entry) × (entry.pw_dir ≡ home))
      × (is_nonempty home ≡ true)

  abbrev pub NamesNone : Option Text → Type 0
  NamesNone signal = ¬ ((answer : Text × Text) × Names signal answer)

  -- The first signal of a list that names an account, or none does.
  abbrev pub IsFirst : List (Option Text) → Text × Text → Type 0
  IsFirst signals answer =
      ((above : List (Option Text)) × (signal : Option Text) × (below : List (Option Text))
        × (signals ≡ above ++ signal ∷ below)
        × All NamesNone above
        × Names signal answer)
      ⊎ (All NamesNone signals × (answer ≡ (declared_username, declared_home_dir)))

  non_empty-some :
      (text : Option Text) (s : Text)
      → non_empty text ≡ some s
      → (text ≡ some s) × (is_nonempty s ≡ true)
  non_empty-some none s e = absurd (cc)
  non_empty-some (some []) s e = absurd (cc)
  non_empty-some (some (c ∷ t)) s e = (e, ap is_nonempty (sym (some-injective _ _ e)))

  some-non_empty : (s : Text) → is_nonempty s ≡ true → non_empty (some s) ≡ some s
  some-non_empty [] h = absurd (cc)
  some-non_empty (c ∷ s) h = refl

  home_of :
      (name home : Text)
      → account_home host name ≡ some home
      → ((entry : Account) × (host.getpwnam name ≡ some entry) × (entry.pw_dir ≡ home))
        × (is_nonempty home ≡ true)
  unfolding account_home
  home_of name home e = elim (Option-cases (host.getpwnam name)) [
    | inl gone ↦ absurd (let f = rw (gone, account_home) at e in cc)
    | inr (entry, found) ↦
        let (dir, filled) =
          non_empty-some (some entry.pw_dir) home (rw (found, account_home) at e) in
        ((entry, found, some-injective _ _ dir), filled)
  ]

  answer_of-Names :
      (signal : Option Text) {answer : Text × Text}
      → answer_of host signal ≡ some answer
      → Names signal answer
  unfolding answer_of
  answer_of-Names signal {answer} e =
      let named : non_empty signal ≡ some answer.0 = ground arith in
      let at_home : account_home host answer.0 ≡ some answer.1 = ground arith in
      let (given, filled) = non_empty-some signal answer.0 named in
      let (entry, home) = home_of answer.0 answer.1 at_home in (given, filled, entry, home)

  -- A signal with an account is answered by it.
  Names-answer_of :
      (signal : Option Text) (answer : Text × Text)
      → Names signal answer
      → answer_of host signal ≡ some answer
  unfolding answer_of account_home
  Names-answer_of signal (name, home) (given, filled, (entry, found, dir), home_filled) = rw (
    given,
    some-non_empty name filled,
    answer_of,
    found,
    account_home,
    dir,
    some-non_empty home home_filled,
  )

  skipped-NamesNone : (signal : Option Text) → answer_of host signal ≡ none → NamesNone signal
  skipped-NamesNone signal skip (answer, named) =
      none-ne-some answer (sym skip ∙ Names-answer_of signal answer named)

  first_answer-skip :
      (signal : Option Text) (rest : List (Option Text))
      → answer_of host signal ≡ none
      → first_answer host (signal ∷ rest) ≡ first_answer host rest
  unfolding first_answer
  first_answer-skip signal rest e = rw (e, first_answer)

  first_answer-stop :
      (signal : Option Text) (rest : List (Option Text)) (answer : Text × Text)
      → answer_of host signal ≡ some answer
      → first_answer host (signal ∷ rest) ≡ answer
  unfolding first_answer
  first_answer-stop signal rest answer e = rw (e, first_answer)

  IsFirst-cons :
      (signal : Option Text) (rest : List (Option Text)) (answer : Text × Text)
      → NamesNone signal
      → IsFirst rest answer
      → IsFirst (signal ∷ rest) answer
  IsFirst-cons signal rest answer skip (inl (above, s, below, e, h, named)) =
      inl (signal ∷ above, s, below, ap (λ l. signal ∷ l) e, (skip, h), named)
  IsFirst-cons signal rest answer skip (inr (h, e)) = inr ((skip, h), e)

  first_answer-IsFirst :
      (signals : List (Option Text)) → IsFirst signals (first_answer host signals)
  first_answer-IsFirst [] = inr (tt, unfold first_answer in refl)
  first_answer-IsFirst (signal ∷ rest) = elim (Option-cases (answer_of host signal)) [
    | inl skip ↦
        subst (IsFirst (signal ∷ rest)) (sym (first_answer-skip signal rest skip))
          (IsFirst-cons signal rest _ (skipped-NamesNone signal skip) (first_answer-IsFirst rest))
    | inr (answer, e) ↦
        subst (IsFirst (signal ∷ rest)) (sym (first_answer-stop signal rest answer e))
          (inl ([], signal, rest, refl, tt, answer_of-Names signal e))
  ]

  -- The signals are tried in order: the answer is the name and the home directory of the first one
  -- that names an account of the machine with a home directory, where no signal before it does,
  -- and the declared pair when none of them does.
  pub desktop_account : IsFirst (candidates host) (get_desktop_username_and_home host)
  unfolding get_desktop_username_and_home
  desktop_account = first_answer-IsFirst (candidates host)

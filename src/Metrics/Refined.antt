-- ===== src/Metrics/Refined.antt =====
-- Every program of the queue moves the files along the steps of Stages, whatever call is refused.
-- The rule for `>>=`.
mod Primitive
mod Dispatching
mod Sending
pub mod Service
use pyntara.Shared.{
  ℕ, ◌≡◌, refl, sym, subst, ◌∙◌, inl, inr, Bool, true, false, Option, none, some, Option-cases,
  Bool-cases, ◌==◌, nat_eq, list_eq, arith, ap,
}
use pyntara.Text.{Text}
use pyntara.Effects.{Answer, ok, raised}
use pyntara.Metrics.Store.{
  Directory, File, Store, main_outbox, google_script, main_sent, same, at, bind, unbind, at-bind,
  at-unbind, at-bind_other, at-unbind_other,
}
use pyntara.Metrics.Machine.{
  Call, Calls, State, Action, pure, observe, ask, attempt, tell, followed_by, ◌>>=◌, perform, link,
}
use pyntara.Metrics.Rule.{
  Holds, Holds-weaken, pure-Holds, observe-Holds, ask-Holds, tell-Holds, bind-Holds, try-Holds,
}
use pyntara.Metrics.Stages.{View, seen, view, ◌⟶◌, linked, ◌⟶*◌, here, then, ⟶*-trans}

abbrev pub Refines : Store → Store → Type 0
Refines store store' = (name : Text) → view store name ⟶* view store' name

abbrev pub Anywhere : {A : Type 0} → A → Store → Type 0
Anywhere a store = Unit

module _ {W A : Type 0} where
  -- From a state a program has come to an answer: along the steps, and to where `Q` holds unless
  -- it raised.
  abbrev pub Reaches : (Q : A → Store → Type 0) → State W → Answer A × State W → Type 0
  Reaches Q s r =
      Holds (λ a store. Refines s.store store × Q a store) (λ store. Refines s.store store) r

  abbrev pub Preserves : Action W A → Type 0
  Preserves m = (s : State W) → Reaches Anywhere s (m s)

  further :
      (Q : A → Store → Type 0) (s s' : State W) (r : Answer A × State W)
      → Refines s.store s'.store
      → Reaches Q s' r
      → Reaches Q s r
  further Q s s' r h =
      Holds-weaken _ _ _ _ r (λ a store k. (λ name. ⟶*-trans (h name) (k.0 name), k.1))
        (λ store k name. ⟶*-trans (h name) (k name))

  pub reached :
      (Q : A → Store → Type 0) (s : State W) (r : Answer A × State W)
      → Reaches Q s r
      → Refines s.store r.1.store
  unfolding Holds
  reached Q s (ok a, t) (k, q) = k
  reached Q s (raised text, t) k = k

  pub pure-Reaches :
      (Q : A → Store → Type 0) (a : A) (s : State W) → Q a s.store → Reaches Q s (pure a s)
  pure-Reaches Q a s h = pure-Holds _ _ a s (λ name. here, h)

  pub pure-Preserves : (a : A) → Preserves (pure {S = State W} a)
  pure-Preserves a s = pure-Reaches Anywhere a s tt

  pub observe-Preserves : (f : W → A) → Preserves (observe f)
  observe-Preserves f s = observe-Holds _ _ f s (λ a. (λ name. here, tt))

  pub ask-Preserves : (f : W → A × W) → Preserves (ask f)
  ask-Preserves f s = ask-Holds _ _ f s (λ a. (λ name. here, tt))

pub tell-Preserves :
    {W : Type 0} (text : Text) (priority : Option ℕ) → Preserves (tell {W = W} text priority)
tell-Preserves text priority s = tell-Holds _ _ text priority s (λ name. here, tt)

module _ {W A B : Type 0} where
  pub bind-Reaches :
      (Q : A → Store → Type 0) (R : B → Store → Type 0) (m : Action W A) (f : A → Action W B)
      (s : State W)
      → Reaches Q s (m s)
      → ((a : A) (s' : State W) → Q a s'.store → Reaches R s' (f a s'))
      → Reaches R s ((m >>= f) s)
  bind-Reaches Q R m f s h k =
      bind-Holds _ _ _ m f s h (λ a s' q. further R s s' (f a s') q.0 (k a s' q.1))

  pub bind-Preserves :
      (m : Action W A) (f : A → Action W B)
      → Preserves m
      → ((a : A) → Preserves (f a))
      → Preserves (m >>= f)
  bind-Preserves m f h k s = bind-Reaches Anywhere Anywhere m f s (h s) (λ a s' _. k a s')

  -- A call in a `try`, and what the code does with its answer.
  pub try-Reaches :
      (Q : A → Store → Type 0) (R : B → Store → Type 0) (m : Action W A) (f : Answer A → Action W B)
      (s : State W)
      → Reaches Q s (m s)
      → ((a : A) (s' : State W) → Q a s'.store → Reaches R s' (f (ok a) s'))
      → ((text : Text) (s' : State W) → Reaches R s' (f (raised text) s'))
      → Reaches R s ((attempt m >>= f) s)
  try-Reaches Q R m f s h k l =
      try-Holds _ _ _ _ m f s h (λ a s' q. further R s s' (f (ok a) s') q.0 (k a s' q.1))
        (λ text s' q. further R s s' (f (raised text) s') q (l text s'))

  pub try-Preserves :
      (m : Action W A) (f : Answer A → Action W B)
      → Preserves m
      → ((a : A) → Preserves (f (ok a)))
      → ((text : Text) → Preserves (f (raised text)))
      → Preserves (attempt m >>= f)
  try-Preserves m f h k l s =
      try-Reaches Anywhere Anywhere m f s (h s) (λ a s' _. k a s') (λ text s'. l text s')

-- ===== src/Metrics/Rule.antt =====
-- What holds of the directories where a program ends, with the rules for `>>=`, for a call in a
-- `try`, and for a call of the directories.
use pyntara.Shared.{ℕ, ◌≡◌, Bool, true, false, Option, none, some, if◌then◌else◌}
use pyntara.Text.{Text}
use pyntara.Effects.{Answer, ok, raised}
use pyntara.Metrics.Store.{Store}
use pyntara.Metrics.Machine.{
  Call, Calls, State, Action, pure, observe, ask, attempt, tell, followed_by, ◌>>=◌, changed,
  unless_refused, perform,
}

-- The same of the answer of a call, which leaves the directories when it raises.
abbrev pub Answers :
    {A : Type 0}
    → (P : A → Store → Type 0) → (E : Store → Type 0) → Store
    → Answer (A × Store)
    → Type 0
Answers P E before (ok (a, store)) = P a store
Answers P E before (raised text) = E before

module _ {W A : Type 0} where
  -- `P` of the value and the directories that a program ends with, `E` of them when it raised.
  unfoldable pub Holds :
      (P : A → Store → Type 0) → (E : Store → Type 0) → Answer A × State W → Type 0
  Holds P E (ok a, s) = P a s.store
  Holds P E (raised text, s) = E s.store

  pub Holds-weaken :
      (P Q : A → Store → Type 0) (E F : Store → Type 0) (r : Answer A × State W)
      → ((a : A) (store : Store) → P a store → Q a store)
      → ((store : Store) → E store → F store)
      → Holds P E r
      → Holds Q F r
  unfolding Holds
  Holds-weaken P Q E F (ok a, s) h k = h a s.store
  Holds-weaken P Q E F (raised text, s) h k = k s.store

  pub Holds-both :
      (P Q : A → Store → Type 0) (E F : Store → Type 0) (r : Answer A × State W)
      → Holds P E r
      → Holds Q F r
      → Holds (λ a store. P a store × Q a store) (λ store. E store × F store) r
  unfolding Holds
  Holds-both P Q E F (ok a, s) h k = (h, k)
  Holds-both P Q E F (raised text, s) h k = (h, k)

  module _ (P : A → Store → Type 0) (E : Store → Type 0) where
    pub pure-Holds : (a : A) (s : State W) → P a s.store → Holds P E (pure a s)
    unfolding pure Holds
    pure-Holds a s h = h

    pub observe-Holds :
        (f : W → A) (s : State W) → ((a : A) → P a s.store) → Holds P E (observe f s)
    unfolding observe Holds
    observe-Holds f s h = h (f s.world)

    pub ask-Holds : (f : W → A × W) (s : State W) → ((a : A) → P a s.store) → Holds P E (ask f s)
    unfolding ask Holds
    ask-Holds f s h = h (f s.world).0

    pub if-Holds :
        (b : Bool) (m n : Action W A) (s : State W)
        → Holds P E (m s)
        → Holds P E (n s)
        → Holds P E ((if b then m else n) s)
    if-Holds true m n s h k = h
    if-Holds false m n s h k = k

    pub perform-Holds :
        (calls : Calls W) (call : Call) (act : Store → Answer (A × Store)) (s : State W)
        → E s.store
        → Answers P E s.store (act s.store)
        → Holds P E (perform calls call act s)
    unfolding perform Holds
    perform-Holds calls call act s refused h = refusals (calls.refusal call s.world)
      where
        answers :
            (w : W) (answer : Answer (A × Store))
            → Answers P E s.store answer
            → Holds P E (changed answer (record s { world = w }))
        answers w (ok (a, store)) h' = h'
        answers w (raised text) h' = h'

        refusals :
            (r : Option Text × W) → Holds P E (unless_refused r.0 act (record s { world = r.1 }))
        refusals (none, w) = answers w (act s.store) h
        refusals (some text, w) = refused

-- A call that is not refused.
pub perform-accepted :
    {W A : Type 0} (P : A → Store → Type 0) (E : Store → Type 0) (calls : Calls W) (call : Call)
    (act : Store → Answer (A × Store)) (s : State W)
    → (calls.refusal call s.world).0 ≡ none
    → Answers P E s.store (act s.store)
    → Holds P E (perform calls call act s)
unfolding perform Holds
perform-accepted {W = W} {A = A} P E calls call act s accepted h =
    rw accepted (answers (act s.store) h)
  where
    answers :
        (answer : Answer (A × Store))
        → Answers P E s.store answer
        → Holds P E (changed answer (record s { world = (calls.refusal call s.world).1 }))
    answers (ok (a, store)) h' = h'
    answers (raised text) h' = h'

pub tell-Holds :
    {W : Type 0} (P : Unit {0} → Store → Type 0) (E : Store → Type 0) (text : Text)
    (priority : Option ℕ) (s : State W)
    → P tt s.store
    → Holds P E (tell text priority s)
unfolding tell Holds
tell-Holds P E text priority s h = h

module _ {W A B : Type 0} where
  module _ (P : A → Store → Type 0) (Q : B → Store → Type 0) (E : Store → Type 0) where
    pub bind-Holds :
        (m : Action W A) (f : A → Action W B) (s : State W)
        → Holds P E (m s)
        → ((a : A) (s' : State W) → P a s'.store → Holds Q E (f a s'))
        → Holds Q E ((m >>= f) s)
    unfolding ◌>>=◌ Holds
    bind-Holds m f s h k = go (m s) h
      where
        go : (r : Answer A × State W) → Holds P E r → Holds Q E (followed_by r.0 f r.1)
        go (ok a, s') h' = k a s' h'
        go (raised text, s') h' = h'

  pub try-Holds :
      (P : A → Store → Type 0) (D : Store → Type 0) (Q : B → Store → Type 0) (E : Store → Type 0)
      (m : Action W A) (f : Answer A → Action W B) (s : State W)
      → Holds P D (m s)
      → ((a : A) (s' : State W) → P a s'.store → Holds Q E (f (ok a) s'))
      → ((text : Text) (s' : State W) → D s'.store → Holds Q E (f (raised text) s'))
      → Holds Q E ((attempt m >>= f) s)
  unfolding ◌>>=◌ attempt Holds
  try-Holds P D Q E m f s h k l = go (m s) h
    where
      go : (r : Answer A × State W) → Holds P D r → Holds Q E (f r.0 r.1)
      go (ok a, s') h' = k a s' h'
      go (raised text, s') h' = l text s' h'

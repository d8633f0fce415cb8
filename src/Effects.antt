-- ===== src/Effects.antt =====
-- Programs that act on a machine and write a log. The machine's state `W` is abstract; the log is
-- the list of the calls of logger.py, the newest last.
use pyntara.Shared.{ℕ, Bool, Option, List, [], ◌∷◌, ◌++◌}
use pyntara.Text.{Text}
use pyntara.Models.{TaskResult}

-- log_task_start, log_result_line (with its duration and `to_journal`), log_progress, log_event
-- (with `to_stderr`), one number of the countdown of a
-- notice, log_start_banner
pub data Event : Type 0 where
  task_start : Text → Event
  result_line : Text → TaskResult → Option ℕ → Bool → Event
  progress : Text → Event
  event_line : Text → Bool → Event
  countdown : ℕ → Event
  start_banner : (version mode : Text) (names : List Text) → Event

-- A call of the operating system answers, or raises an exception whose `str` is kept.
pub data Answer {ℓ} (A : Type ℓ) : Type ℓ where
  ok : A → Answer A
  raised : Text → Answer A

pub record System (W : Type 0) : Type 0 where
  pub world : W
  pub log : List Event

abbrev pub Action : Type 0 → Type 0 → Type 0
Action W A = System W → A × System W

module _ {W A : Type 0} where
  unfoldable pub pure : A → Action W A
  pure a s = (a, s)

  -- A call that leaves the program.
  unfoldable pub ask : (W → A × W) → Action W A
  ask f s = let (a, w) = f s.world in (a, record s { world = w })

unfoldable pub emit : {W : Type 0} → Event → Action W (Unit {0})
emit e s = (tt, record s { log = s.log ++ e ∷ [] })

module _ {W A B : Type 0} where
  infixl 5 ◌>>=◌ ◌>>◌
  -- Unfolding this unfolds `pure`, `ask` and `emit` too.
  unfoldable pub ◌>>=◌ : Action W A → (A → Action W B) → Action W B
  unfolding pure ask emit
  ◌>>=◌ m f s = let (a, s') = m s in f a s'

  abbrev pub ◌>>◌ : Action W A → Action W B → Action W B
  m >> n = m >>= λ _. n

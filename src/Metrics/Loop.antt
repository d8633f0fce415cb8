-- ===== src/Metrics/Loop.antt =====
-- metrics.py: one cycle of the queue, and the loop of the service, whose cycles are counted here
-- by a number since it never ends by itself.
use pyntara.Shared.{
  ℕ, zero, suc, Bool, ◌||◌, ◌++◌, Option, none, some, ◌==◌, nat_eq, list_eq, option_eq, ltb,
  if◌then◌else◌,
}
use pyntara.Text.{Text, codes}
use pyntara.Effects.{ok, raised}
use pyntara.Metrics.Machine.{Calls, Action, pure, ask, attempt, tell, ◌>>=◌}
use pyntara.Metrics.Dispatch.{dispatch_entries}
use pyntara.Metrics.Entries.{error_priority}
use pyntara.Metrics.Send.{ChannelOutcome, outcome, send_google_queue}
use pyntara.Metrics.Backoff.{backoff_delay}

abbrev pub backoff_base_seconds : ℕ
backoff_base_seconds = 2

abbrev pub backoff_multiplier : ℕ
backoff_multiplier = 2

abbrev pub backoff_max_seconds : ℕ
backoff_max_seconds = 14400

abbrev pub support_retry_max_seconds : ℕ
support_retry_max_seconds = 300

-- The variables of the loop.
pub record Loop : Type 0 where
  pub failed_cycles : ℕ
  pub last_problem : Option Text

abbrev pub first_loop : Loop
first_loop = record { failed_cycles = 0; last_problem = none }

-- The counter and the pause behind a cycle.
unfoldable pub pause_after : (failed_cycles : ℕ) → ChannelOutcome → ℕ × ℕ
pause_after failed_cycles o = elim o.problem [
  | some problem ↦ (
    suc failed_cycles,
    backoff_delay (suc failed_cycles) backoff_base_seconds backoff_multiplier
        support_retry_max_seconds,
  )
  | none ↦ if ltb 0 o.sent || o.attempts == 0 then (0, backoff_base_seconds) else (
    suc failed_cycles,
    backoff_delay (suc failed_cycles) backoff_base_seconds backoff_multiplier backoff_max_seconds,
  )
]

module _ {W : Type 0} (calls : Calls W) where
  abbrev pub send_unless : (single_random : Bool) → Option Text → Action W ChannelOutcome
  send_unless single_random none = send_google_queue calls single_random
  send_unless single_random (some problem) = pure (outcome 0 0 (some problem))

  unfoldable pub try_cycle : (single_random : Bool) → Action W ChannelOutcome
  try_cycle single_random = dispatch_entries calls >>= send_unless single_random

  -- The answer is the problem, the attempts and the number of sent entries.
  unfoldable pub dispatch_and_send : (single_random : Bool) → Action W ChannelOutcome
  dispatch_and_send single_random = do
    answer ← attempt (try_cycle single_random)
    elim answer [
      | ok o ↦ pure o
      | raised text ↦ pure (outcome 0 0 (some (codes "the System Metrics cycle failed: " ++ text)))
    ]

  -- What the loop writes when the problem is another than that of the cycle before.
  unfoldable pub report : (last_problem problem : Option Text) → Action W (Unit {0})
  report last_problem none =
      if last_problem == none
      then pure tt
      else tell (codes "the missing System Metrics support is available again") none
  report last_problem (some problem) =
      if last_problem == some problem then pure tt else tell problem error_priority

  unfoldable pub cycle : Loop → Action W Loop
  cycle loop = do
    o ← dispatch_and_send (ltb 0 loop.failed_cycles)
    _ ← report loop.last_problem o.problem
    let (failed_cycles, pause) = pause_after loop.failed_cycles o
    _ ← ask (λ w. (tt, calls.sleep pause w))
    pure (record { failed_cycles = failed_cycles; last_problem = o.problem })

  -- So many cycles of `main`.
  unfoldable pub cycles : ℕ → Loop → Action W Loop
  cycles zero loop = pure loop
  cycles (suc n) loop = cycle loop >>= cycles n

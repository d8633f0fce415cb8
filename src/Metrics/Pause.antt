-- ===== src/Metrics/Pause.antt =====
-- The pause and the counter behind a cycle of the service.
use pyntara.Shared.{
  ℕ, suc, ◌≤◌, ◌≡◌, refl, ◌⊎◌, inl, inr, true, false, ◌||◌, none, arith, ltb, ltb→lt, Bool-cases,
  Option-cases, ◌==◌, nat_eq,
}
use pyntara.Metrics.Backoff.{backoff_delay_bounds, Grows}
use pyntara.Metrics.Send.{ChannelOutcome}
use pyntara.Metrics.Loop.{
  pause_after, backoff_base_seconds, backoff_multiplier, backoff_max_seconds,
  support_retry_max_seconds,
}

network_pause : (n : ℕ) → Grows backoff_base_seconds backoff_multiplier backoff_max_seconds n
network_pause =
    backoff_delay_bounds backoff_base_seconds backoff_multiplier backoff_max_seconds (omega arith)
      (omega arith) (omega arith)

support_pause : (n : ℕ) → Grows backoff_base_seconds backoff_multiplier support_retry_max_seconds n
support_pause =
    backoff_delay_bounds backoff_base_seconds backoff_multiplier support_retry_max_seconds
      (omega arith) (omega arith) (omega arith)

-- A cycle without a problem that sent something or had nothing to send.
abbrev pub IsGood : ChannelOutcome → Type 0
IsGood o = (o.problem ≡ none) × ((1 ≤ o.sent) ⊎ (o.attempts ≡ 0))

progress : (sent attempts : ℕ) → (ltb 0 sent || attempts == 0) ≡ true → (1 ≤ sent) ⊎ (attempts ≡ 0)
progress sent attempts h = elim (Bool-cases (ltb 0 sent)) [
  | inl some_sent ↦ inl (ltb→lt 0 sent some_sent)
  | inr none_sent ↦ inr (ground arith)
]

no_progress :
    (sent attempts : ℕ) → (ltb 0 sent || attempts == 0) ≡ false → ¬ ((1 ≤ sent) ⊎ (attempts ≡ 0))
no_progress sent attempts h (inl k) = absurd (ground arith)
no_progress sent attempts h (inr k) = absurd (ground arith)

-- Behind every cycle the pause is between the base and the network ceiling, and not above the
-- support ceiling when there was a problem; the counter is zero exactly behind a cycle without a
-- problem that sent something or had nothing to send, and one more than before behind any other.
pub pause_after_bounds :
    (failed_cycles : ℕ) (o : ChannelOutcome)
    → (backoff_base_seconds ≤ (pause_after failed_cycles o).1)
      × ((pause_after failed_cycles o).1 ≤ backoff_max_seconds)
      × ((o.problem ≡ none) ⊎ ((pause_after failed_cycles o).1 ≤ support_retry_max_seconds))
      × ((IsGood o × ((pause_after failed_cycles o).0 ≡ 0))
          ⊎ ((¬ IsGood o) × ((pause_after failed_cycles o).0 ≡ suc failed_cycles)))
unfolding pause_after
pause_after_bounds failed_cycles o = elim (Option-cases o.problem) [
  | inr (problem, e) ↦
      let (low, high, _, _) = support_pause (suc failed_cycles) in
      rw e (low, omega (arith, high), inr high, inr (λ good. absurd (cc), refl))
  | inl e ↦ elim (Bool-cases (ltb 0 o.sent || o.attempts == 0)) [
    | inl good ↦
        rw (e, good)
          (omega arith, omega arith, inl refl, inl ((refl, progress o.sent o.attempts good), refl))
    | inr bad ↦
        let (low, high, _, _) = network_pause (suc failed_cycles) in
        rw (e, bad)
          (low, high, inl refl, inr (λ done. no_progress o.sent o.attempts bad done.1, refl))
  ]
]

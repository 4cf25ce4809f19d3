-- ===== src/Tests/Retries.antt =====
-- dawn_kestrel/llm/retry.py, over a world that is the number of calls made and the waits
use dawn_kestrel.Prelude.{
  ℕ, ◌+◌, ◌≡◌, refl, false, none, List, [], ◌∷◌, ◌++◌, ltb, contains, if◌then◌else◌, text, Outcome,
  returns,
}
use dawn_kestrel.Core.Result.{Result, ok}
use dawn_kestrel.Llm.Retry.{
  exponential, calculate_delay, Reply, value, exception, no_stats, RetryExecutor, execute, checked,
  or_default, judge, attempts, base_delay, max_delay,
}
use dawn_kestrel.Llm.Retry.Attempts.{execute_calls}

abbrev World : Type 0
World = ℕ × List ℕ

abbrev sleep : ℕ → World → World
sleep d w = (w.0, w.1 ++ d ∷ [])

-- fails twice by an error of the network, then answers
abbrev third_time : World → Reply ℕ × World
third_time w =
    (if ltb w.0 2 then exception "ConnectionError" (text "reset") else value 7, (w.0 + 1, w.1))

abbrev executor : RetryExecutor World
executor = record {
  max_attempts = 3;
  backoff = exponential 100 5000 2 false;
  transient_errors = "ConnectionError" ∷ "TimeoutError" ∷ [];
  circuit_breaker = none;
  stats = no_stats;
}

abbrev start : World
start = (0, [])

abbrev jitter : ℕ → ℕ
jitter d = d

waits_double : (execute jitter sleep third_time executor none none start).2 ≡ (3, 100 ∷ 200 ∷ [])
unfolding execute checked or_default judge attempts calculate_delay base_delay max_delay contains
waits_double = refl

succeeds : (execute jitter sleep third_time executor none none start).0 ≡ returns (ok 7)
unfolding execute checked or_default judge attempts contains
succeeds = refl

abbrev outcome : Outcome (Result ℕ) × RetryExecutor World × World
outcome = execute jitter sleep third_time executor none none start

execute_calls_example : outcome.2.0 ≡ 0 + outcome.1.stats.last_attempt_count
unfolding checked
execute_calls_example =
    execute_calls jitter sleep third_time executor none none start (λ w. w.0) (λ w. refl)
      (λ d w. refl) refl

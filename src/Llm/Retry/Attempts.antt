-- ===== src/Llm/Retry/Attempts.antt =====
-- How often the executor of dawn_kestrel/llm/retry.py makes an attempt, and what it reports.
use dawn_kestrel.Prelude.{
  ℕ, ◌+◌, ◌≤◌, ◌≡◌, refl, true, false, Option, none, some, text, Outcome, returns, arith, string_eq,
  option_eq,
}
use dawn_kestrel.Core.Result.{Result, err_code}
use dawn_kestrel.Llm.Retry.{
  Backoff, Reply, Stats, RetryExecutor, again, judge, or_default, checked, execute,
}
use dawn_kestrel.Llm.Retry.Loop.{ended, came_back, loop-Counted, loop-Called, loop_exhausts}

module _ {A W : Type 0} (uniform : ℕ → ℕ) (sleep : ℕ → W → W) (operation : W → Reply A × W)
    (ex : RetryExecutor W) (max_attempts : Option ℕ) (backoff : Option Backoff) (w : W) where
  abbrev answered : Outcome (Result A) × RetryExecutor W × W
  answered = execute uniform sleep operation ex max_attempts backoff w

  abbrev top_of : ℕ
  top_of = or_default max_attempts ex.max_attempts

  abbrev strategy_of : Backoff
  strategy_of = elim backoff [ none ↦ ex.backoff | some b ↦ b ]

  abbrev begun : Stats
  begun = record ex.stats {
    total_calls = ex.stats.total_calls + 1;
    last_attempt_count = 0;
    retry_count = 0;
  }

  -- Behind a breaker that says it is closed nothing is tried: the answer is `CIRCUIT_OPEN`, the
  -- statistics are as they were, and the world is the one that the breaker left.
  pub execute_blocked :
      (checked ex w).0 ≡ true
      → answered ≡ (returns (err_code (text "CIRCUIT_OPEN") "CIRCUIT_OPEN"), ex, (checked ex w).1)
  unfolding execute
  execute_blocked h = rw h

  -- A call that the breaker lets through is counted once as a call, and once as a success or a
  -- failure unless it raises; its attempts are at most the maximum, and are added to the total.
  pub execute_counts :
      (checked ex w).0 ≡ false
      → (answered.1.stats.total_calls ≡ ex.stats.total_calls + 1)
        × (ended answered.1.stats ≡ ended ex.stats + came_back answered.0)
        × (answered.1.stats.last_attempt_count ≤ top_of)
        × (answered.1.stats.total_attempts
            ≡ ex.stats.total_attempts + answered.1.stats.last_attempt_count)
  unfolding execute
  execute_counts h =
      let c =
        loop-Counted uniform sleep operation ex.transient_errors strategy_of top_of top_of 0 none
          begun (checked ex w).1 refl in
      rw h (omega arith)

  -- Where the breaker lets a call through, the operation is called exactly as often as the
  -- executor counts attempts, for any count of its calls that the operation moves by one and the
  -- sleep does not move.
  pub execute_calls :
      (calls : W → ℕ)
      → ((v : W) → calls (operation v).1 ≡ calls v + 1)
      → ((d : ℕ) (v : W) → calls (sleep d v) ≡ calls v)
      → (checked ex w).0 ≡ false
      → calls answered.2 ≡ calls (checked ex w).1 + answered.1.stats.last_attempt_count
  unfolding execute
  execute_calls calls called slept h =
      let c =
        loop-Called uniform sleep operation ex.transient_errors strategy_of top_of calls called
          slept top_of 0 none begun (checked ex w).1 refl in
      rw h (omega arith)

  -- Where the breaker lets a call through, an operation whose every reply asks for another
  -- attempt is tried to the maximum, and the answer is `MAX_RETRIES_EXCEEDED`.
  pub execute_exhausts :
      ((v : W) (s : Stats)
        → (r : Result A) × (judge ex.transient_errors (operation v).0 s ≡ again r s))
      → (checked ex w).0 ≡ false
      → (answered.0 ≡ returns (err_code (text "MAX_RETRIES_EXCEEDED") "MAX_RETRIES_EXCEEDED"))
        × (answered.1.stats.last_attempt_count ≡ top_of)
  unfolding execute
  execute_exhausts retries h =
      let c =
        loop_exhausts uniform sleep operation ex.transient_errors strategy_of top_of retries top_of
          0 none begun (checked ex w).1 refl in
      rw h (c.0, omega arith)

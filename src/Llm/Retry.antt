-- ===== src/Llm/Retry.antt =====
-- dawn_kestrel/llm/retry.py. Delays are whole milliseconds with whole bases, where the source has
-- floats; the jitter, the sleep and the operation are parameters that act on a world `W`.
pub mod Delays
pub mod Loop
pub mod Attempts
use dawn_kestrel.Prelude.{
  ℕ, zero, suc, ◌+◌, ◌-◌, ◌*◌, ◌/◌, min, ◌^◌, String, Bool, true, false, Option, none, some, List,
  [], ◌∷◌, Dict, lookup, insert, contains, leb, ltb, Message, text, Outcome, returns, raises,
  if◌then◌else◌, string_eq, option_eq,
}
use dawn_kestrel.Core.Result.{Error, Result, ok, err, pass, err_code}

-- `ExponentialBackoff`, `LinearBackoff` and `FixedBackoff`. The first two keep their own delays for
-- `getattr`, and are given them back by the caller.
pub data Backoff : Type 0 where
  exponential : (base_delay_ms max_delay_ms exponential_base : ℕ) (jitter : Bool) → Backoff
  linear : (base_delay_ms max_delay_ms : ℕ) → Backoff
  fixed : (delay_ms : ℕ) → Backoff

-- `getattr(strategy, "_base_delay_ms", 100.0)`
unfoldable pub base_delay : Backoff → ℕ
base_delay (exponential base top b jitter) = base
base_delay (linear base top) = base
base_delay (fixed delay) = 100

-- `getattr(strategy, "_max_delay_ms", 5000.0)`
unfoldable pub max_delay : Backoff → ℕ
max_delay (exponential base top b jitter) = top
max_delay (linear base top) = top
max_delay (fixed delay) = 5000

-- `uniform d` stands for `delay + random.uniform(-d / 10, d / 10)` at delay `d`
unfoldable pub calculate_delay :
    (uniform : ℕ → ℕ) → Backoff → (attempt base_delay_ms max_delay_ms : ℕ) → ℕ
calculate_delay uniform (exponential base top b jitter) attempt base_ms max_ms =
    let delay = min (base_ms * b ^ attempt) max_ms in if jitter then uniform delay else delay
calculate_delay uniform (linear base top) attempt base_ms max_ms =
    min (base_ms * (attempt + 1)) max_ms
calculate_delay uniform (fixed delay_ms) attempt base_ms max_ms = delay_ms

-- what one call of the operation gives: a value of the `Result` type, a direct value, or an
-- exception with its type's name
pub data Reply (A : Type 0) : Type 0 where
  result : Result A → Reply A
  value : A → Reply A
  rate_limited : Message → Reply A
  exception : String → Message → Reply A

pub record Stats : Type 0 where
  pub total_calls : ℕ
  pub successful_calls : ℕ
  pub failed_calls : ℕ
  pub total_attempts : ℕ
  pub last_attempt_count : ℕ
  pub retry_count : ℕ
  pub errors_by_type : Dict (Option String) ℕ

abbrev pub no_stats : Stats
no_stats = record {
  total_calls = 0;
  successful_calls = 0;
  failed_calls = 0;
  total_attempts = 0;
  last_attempt_count = 0;
  retry_count = 0;
  errors_by_type = [];
}

-- `RetryExecutorImpl`
pub record RetryExecutor (W : Type 0) : Type 0 where
  pub max_attempts : ℕ
  pub backoff : Backoff
  pub transient_errors : List String
  pub circuit_breaker : Option (W → Bool × W)
  pub stats : Stats

-- what the loop goes on with after one attempt
pub data Step (A : Type 0) : Type 0 where
  finish : Outcome (Result A) → Stats → Step A
  again : Result A → Stats → Step A

abbrev succeeded : Stats → Stats
succeeded s = record s { successful_calls = s.successful_calls + 1 }

abbrev failed : Stats → Stats
failed s = record s { failed_calls = s.failed_calls + 1 }

-- `errors_by_type[code] = errors_by_type.get(code, 0) + 1`
count_error : Option String → Stats → Stats
count_error code s =
    let seen : ℕ = elim (lookup code s.errors_by_type) [ none ↦ 0 | some n ↦ n ] in
    record s { errors_by_type = insert code (seen + 1) s.errors_by_type }

module _ {A : Type 0} where
  -- the `try` block of an attempt and its handlers; a `Pass` has no attribute `retryable`
  unfoldable pub judge : List String → Reply A → Stats → Step A
  judge transient (result (ok a)) s = finish (returns (ok a)) (succeeded s)
  judge transient (result (err e)) s =
      if e.retryable then again (err e) s else finish (returns (err e)) (failed s)
  judge transient (result (pass m)) s = again (pass m) s
  judge transient (value a) s = finish (returns (ok a)) (succeeded s)
  judge transient (rate_limited m) s = finish (raises m) s
  judge transient (exception kind m) s =
      if contains kind transient
      then again (err (record { error = m; code = some "EXECUTION_ERROR"; retryable = true })) s
      else finish
          (returns (err (record { error = m; code = some "PERMANENT_ERROR"; retryable = false })))
          (failed s)

  -- `getattr(last_error, "code", "unknown")`
  error_code : Result A → Option String
  error_code (err e) = e.code
  error_code _ = some "unknown"

  exceeded : Option (Result A) → Stats → Stats
  unfolding count_error error_code
  exceeded none s = failed s
  exceeded (some last_error) s = count_error (error_code last_error) (failed s)

-- an attempt is counted before it is made
abbrev started : ℕ → Stats → Stats
started attempt s = record s {
  total_attempts = s.total_attempts + 1;
  last_attempt_count = attempt + 1;
}

abbrev retried : Stats → Stats
retried s = record s { retry_count = s.retry_count + 1 }

module _ {A W : Type 0} (uniform : ℕ → ℕ) (sleep : ℕ → W → W) (operation : W → Reply A × W)
    (transient : List String) (strategy : Backoff) (max_attempts : ℕ) where
  -- the wait before the next attempt, if there is one
  pause : ℕ → W → W
  pause attempt w =
      if ltb (attempt + 1) max_attempts
      then sleep
          (calculate_delay uniform strategy attempt (base_delay strategy) (max_delay strategy)) w
      else w

  -- the `for` loop: the attempts that are left, and the number of the next one
  unfoldable pub attempts : ℕ → ℕ → Option (Result A) → Stats → W → Outcome (Result A) × Stats × W
  unfolding pause judge exceeded
  attempts zero attempt last_error s w = (
    returns (err_code (text "MAX_RETRIES_EXCEEDED") "MAX_RETRIES_EXCEEDED"),
    exceeded last_error s,
    w,
  )
  attempts (suc left) attempt last_error s w =
      let (reply, w') = operation w in
      elim (judge transient reply (started attempt s)) [
        | finish answer s' ↦ (answer, s', w')
        | again error s' ↦ attempts left (attempt + 1) (some error) (retried s') (pause attempt w')
      ]

-- `a or b` on numbers, of which 0 counts as none
unfoldable pub or_default : Option ℕ → ℕ → ℕ
or_default none b = b
or_default (some zero) b = b
or_default (some (suc n)) b = suc n

-- the breaker's answer to `is_closed`, and the world after it
unfoldable pub checked : {W : Type 0} → RetryExecutor W → W → Bool × W
checked ex w = elim ex.circuit_breaker [ none ↦ (false, w) | some is_closed ↦ is_closed w ]

module _ {A W : Type 0} (uniform : ℕ → ℕ) (sleep : ℕ → W → W) (operation : W → Reply A × W) where
  run_attempts : RetryExecutor W → ℕ → Backoff → W → Outcome (Result A) × RetryExecutor W × W
  run_attempts ex top strategy w =
      let s = record ex.stats {
        total_calls = ex.stats.total_calls + 1;
        last_attempt_count = 0;
        retry_count = 0;
      } in
      let (answer, s', w') =
        attempts uniform sleep operation ex.transient_errors strategy top top 0 none s w in
      (answer, record ex { stats = s' }, w')

  unfoldable pub execute :
      RetryExecutor W → Option ℕ → Option Backoff → W → Outcome (Result A) × RetryExecutor W × W
  unfolding run_attempts checked or_default
  execute ex max_attempts backoff w =
      let top = or_default max_attempts ex.max_attempts in
      let strategy : Backoff = elim backoff [ none ↦ ex.backoff | some b ↦ b ] in
      let (blocked, w') = checked ex w in
      if blocked
      then (returns (err_code (text "CIRCUIT_OPEN") "CIRCUIT_OPEN"), ex, w')
      else run_attempts ex top strategy w'

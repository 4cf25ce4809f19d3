-- ===== src/Llm/CircuitBreaker.antt =====
-- dawn_kestrel/llm/circuit_breaker.py. The name of the wrapped provider is a parameter of the one
-- method that reads it; times are natural.
pub mod Reach
use dawn_kestrel.Prelude.{
  ℕ, String, Bool, true, false, Option, none, some, [], Dict, not, if◌then◌else◌, string_eq, ◌==◌,
}
use dawn_kestrel.Core.Result.{Result, ok}

pub data CircuitState : Type 0 where
  closed open_state half_open : CircuitState

-- `CircuitBreakerImpl`
pub record CircuitBreaker : Type 0 where
  pub failure_threshold : ℕ
  pub half_open_threshold : ℕ
  pub timeout_seconds : ℕ
  pub reset_timeout_seconds : ℕ
  pub state : CircuitState
  pub failures : Dict String ℕ
  pub last_failure_time : Dict String ℕ
  pub half_open_until : Dict String ℕ

unfoldable pub new_breaker :
    (failure_threshold half_open_threshold timeout_seconds reset_timeout_seconds : ℕ)
    → CircuitBreaker
new_breaker f h t r = record {
  failure_threshold = f;
  half_open_threshold = h;
  timeout_seconds = t;
  reset_timeout_seconds = r;
  state = closed;
  failures = [];
  last_failure_time = [];
  half_open_until = [];
}

abbrev is_closed_state : CircuitState → Bool
is_closed_state closed = true
is_closed_state _ = false

abbrev is_half_open_state : CircuitState → Bool
is_half_open_state half_open = true
is_half_open_state _ = false

unfoldable pub is_open : CircuitBreaker → Bool
is_open b = not (is_closed_state b.state)

unfoldable pub is_closed : CircuitBreaker → Bool
is_closed b = is_closed_state b.state

unfoldable pub is_half_open : CircuitBreaker → Bool
is_half_open b = is_half_open_state b.state

unfoldable pub get_state : CircuitBreaker → CircuitState
get_state b = b.state

-- `none` is an adapter without the method
unfoldable pub get_provider_name : Option String → String
get_provider_name none = "unknown"
get_provider_name (some name) = if name == "" then "unknown" else name

unfoldable pub open_circuit : CircuitBreaker → Result (Unit {0}) × CircuitBreaker
open_circuit b = (ok tt, record b { state = open_state })

unfoldable pub close_circuit : CircuitBreaker → Result (Unit {0}) × CircuitBreaker
close_circuit b = (
  ok tt,
  record b { state = closed; failures = []; last_failure_time = []; half_open_until = [] },
)

-- ===== src/Llm/Bulkhead.antt =====
-- dawn_kestrel/llm/bulkhead.py. A bulkhead makes one semaphore for each resource and never replaces
-- it, so a semaphore is named by its resource and is the number of its free permits. A wait for a
-- permit is taken at the moment when it ends: with a permit that is free then, or by the timeout.
pub mod Semaphores
pub mod Permits
pub mod Leak
use dawn_kestrel.Prelude.{
  ℕ, zero, suc, ◌+◌, ◌-◌, String, Bool, true, false, Option, none, some, List, [], ◌∷◌, Dict,
  lookup, insert, contains, add, remove, ltb, max, Message, text, num, ◌&◌, if◌then◌else◌,
  string_eq, not,
}
use dawn_kestrel.Core.Result.{Result, ok, err, err_code}

-- `BulkheadImpl`; timeouts are in milliseconds
pub record Bulkhead : Type 0 where
  pub semaphores : Dict String ℕ
  pub limits : Dict String ℕ
  pub active_counts : Dict String ℕ
  pub timeouts : Dict String ℕ
  pub managed_semaphores : List String
  pub default_limit : ℕ
  pub default_timeout : ℕ

unfoldable pub new_bulkhead : Bulkhead
new_bulkhead = record {
  semaphores = [];
  limits = [];
  active_counts = [];
  timeouts = [];
  managed_semaphores = [];
  default_limit = 1;
  default_timeout = 30000;
}

unfoldable pub set_limit : Bulkhead → String → ℕ → Bulkhead
set_limit b resource limit = record b { limits = insert resource limit b.limits }

unfoldable pub set_timeout : Bulkhead → String → ℕ → Bulkhead
set_timeout b resource timeout = record b { timeouts = insert resource timeout b.timeouts }

unfoldable pub get_limit : Bulkhead → String → ℕ
get_limit b resource = elim (lookup resource b.limits) [ none ↦ b.default_limit | some n ↦ n ]

unfoldable pub get_timeout : Bulkhead → String → ℕ
get_timeout b resource = elim (lookup resource b.timeouts) [ none ↦ b.default_timeout | some t ↦ t ]

-- the free permits of a resource, of a semaphore that is made if there is none
unfoldable pub permits : Bulkhead → String → ℕ
unfolding get_limit
permits b resource = elim (lookup resource b.semaphores) [
  | none ↦ get_limit b resource
  | some n ↦ n
]

active : Bulkhead → String → ℕ
active b resource = elim (lookup resource b.active_counts) [ none ↦ 0 | some n ↦ n ]

timed_out : Bulkhead → String → Message
unfolding get_timeout
timed_out b resource =
    text "Failed to acquire semaphore for "
    & text resource
    & text " after "
    & num (get_timeout b resource)

-- `Ok` of the semaphore, which its resource names
unfoldable pub try_acquire : Bulkhead → String → Result String × Bulkhead
unfolding permits active timed_out
try_acquire b resource =
    let free = permits b resource in
    if ltb 0 free
    then (
      ok resource,
      record b {
        semaphores = insert resource (free - 1) b.semaphores;
        managed_semaphores = add resource b.managed_semaphores;
        active_counts = insert resource (active b resource + 1) b.active_counts;
      },
    )
    else (
      err_code (timed_out b resource) "ACQUISITION_TIMEOUT",
      record b { semaphores = insert resource free b.semaphores },
    )

-- the loop over `_active_counts`: the first count that is not 0 goes down
uncount : Dict String ℕ → Dict String ℕ
uncount [] = []
uncount ((r, zero) ∷ d) = (r, zero) ∷ uncount d
uncount ((r, suc n) ∷ d) = (r, n) ∷ d

unfoldable pub release : Bulkhead → String → Result (Unit {0}) × Bulkhead
unfolding permits uncount
release b semaphore =
    if not (contains semaphore b.managed_semaphores)
    then (err_code (text "Semaphore was not acquired via try_acquire") "BULKHEAD_ERROR", b)
    else (
      ok tt,
      record b {
        semaphores = insert semaphore (permits b semaphore + 1) b.semaphores;
        managed_semaphores = remove semaphore b.managed_semaphores;
        active_counts = uncount b.active_counts;
      },
    )

-- how the awaited call ends
pub data Ending (A : Type 0) : Type 0 where
  value : A → Ending A
  timeout : Ending A
  exception : Message → Ending A

module _ {A : Type 0} where
  unfoldable pub ending : String → Ending A → Result A
  ending resource (value a) = ok a
  ending resource timeout =
      err_code (text "Execution timeout for " & text resource) "EXECUTION_TIMEOUT"
  ending resource (exception e) = err_code (text "Function execution error: " & e) "EXECUTION_ERROR"

  -- with the permit in hand; the release is in a `finally`
  run_held : Bulkhead → String → Ending A → Result String → Result A × Bulkhead
  unfolding ending
  run_held b resource e (ok semaphore) = (ending resource e, (release b semaphore).1)
  run_held b resource e (err x) = (err x, b)
  run_held b resource e (Result.pass m) = (Result.pass m, b)

  -- One call that no other overlaps. The override of the limit is taken back at the end.
  unfoldable pub try_execute : Bulkhead → String → Ending A → Option ℕ → Result A × Bulkhead
  unfolding run_held
  try_execute b resource e max_concurrent =
      let original = get_limit b resource in
      let limited : Bulkhead = elim max_concurrent [ none ↦ b | some n ↦ set_limit b resource n ] in
      let (r, acquired) = try_acquire limited resource in
      let (answer, released) = run_held acquired resource e r in
      (
        answer,
        elim max_concurrent [ none ↦ released | some n ↦ set_limit released resource original ],
      )

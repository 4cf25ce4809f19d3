-- ===== src/Llm/CircuitBreaker/Reach.antt =====
-- The states that the circuit breaker of dawn_kestrel/llm/circuit_breaker.py can be in.
use dawn_kestrel.Prelude.{ℕ, ◌≡◌, refl, false, List, [], ◌∷◌}
use dawn_kestrel.Llm.CircuitBreaker.{
  CircuitBreaker, CircuitState, closed, open_state, new_breaker, is_half_open, open_circuit,
  close_circuit,
}

-- a call of a method that changes the breaker
pub data Call : Type 0 where
  open_it close_it : Call

unfoldable pub run : CircuitBreaker → List Call → CircuitBreaker
run b [] = b
run b (open_it ∷ cs) = run (open_circuit b).1 cs
run b (close_it ∷ cs) = run (close_circuit b).1 cs

-- the state after a sequence of calls: that of the last one
abbrev pub last_of : CircuitState → List Call → CircuitState
last_of s [] = s
last_of s (open_it ∷ cs) = last_of open_state cs
last_of s (close_it ∷ cs) = last_of closed cs

run_last : (b : CircuitBreaker) (cs : List Call) → (run b cs).state ≡ last_of b.state cs
unfolding run open_circuit close_circuit
run_last b [] = refl
run_last b (open_it ∷ cs) = run_last (open_circuit b).1 cs
run_last b (close_it ∷ cs) = run_last (close_circuit b).1 cs

run_plain :
    (b : CircuitBreaker) (cs : List Call)
    → is_half_open b ≡ false
    → b.failures ≡ []
    → (is_half_open (run b cs) ≡ false) × ((run b cs).failures ≡ [])
unfolding run open_circuit close_circuit is_half_open
run_plain b [] h e = (h, e)
run_plain b (open_it ∷ cs) h e = run_plain (open_circuit b).1 cs refl e
run_plain b (close_it ∷ cs) h e = run_plain (close_circuit b).1 cs refl refl

-- A breaker is open or closed as its last call made it, closed before any; and whatever is called,
-- it is never half open: no method counts a failure, opens by a threshold or tries a recovery.
pub run-new_breaker :
    (f h t r : ℕ) (cs : List Call)
    → ((run (new_breaker f h t r) cs).state ≡ last_of closed cs)
      × (is_half_open (run (new_breaker f h t r) cs) ≡ false)
      × ((run (new_breaker f h t r) cs).failures ≡ [])
unfolding new_breaker is_half_open
run-new_breaker f h t r cs =
    let b = new_breaker f h t r in
    let plain = run_plain b cs refl refl in (run_last b cs, plain.0, plain.1)

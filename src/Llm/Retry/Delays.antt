-- ===== src/Llm/Retry/Delays.antt =====
-- The waits between attempts of dawn_kestrel/llm/retry.py.
use native.Mathlib.Nat.{pow-suc}
use dawn_kestrel.Prelude.{ℕ, zero, suc, ◌*◌, ◌^◌, ◌≤◌, false, arith}
use dawn_kestrel.Llm.Retry.{exponential, linear, calculate_delay}

-- Without jitter a growing delay never passes the maximum that the caller gives.
pub calculate_delay-le :
    (uniform : ℕ → ℕ) (base top b attempt base_ms max_ms : ℕ)
    → (calculate_delay uniform (exponential base top b false) attempt base_ms max_ms ≤ max_ms)
      × (calculate_delay uniform (linear base top) attempt base_ms max_ms ≤ max_ms)
unfolding calculate_delay
calculate_delay-le uniform base top b attempt base_ms max_ms = (omega arith, omega arith)

grows : (c p b : ℕ) → 1 ≤ b → c * p ≤ c * (p * b)
grows c p zero h = absurd (omega arith)
grows c p (suc b) h = omega arith

-- Later attempts wait at least as long as earlier ones, for a base of growth of one or more.
pub calculate_delay_mono :
    (uniform : ℕ → ℕ) (base top b attempt base_ms max_ms : ℕ)
    → 1 ≤ b
    → (calculate_delay uniform (exponential base top b false) attempt base_ms max_ms
        ≤ calculate_delay uniform (exponential base top b false) (suc attempt) base_ms max_ms)
      × (calculate_delay uniform (linear base top) attempt base_ms max_ms
          ≤ calculate_delay uniform (linear base top) (suc attempt) base_ms max_ms)
unfolding calculate_delay
calculate_delay_mono uniform base top b attempt base_ms max_ms h =
    (rw pow-suc (omega (arith, grows base_ms (b ^ attempt) b h)), grind arith)

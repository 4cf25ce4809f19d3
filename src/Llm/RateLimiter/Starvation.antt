-- ===== src/Llm/RateLimiter/Starvation.antt =====
-- Each refill of dawn_kestrel/llm/rate_limiter.py drops the fraction of a token that it has not earned
-- yet, and starts to count anew.
use dawn_kestrel.Prelude.{ℕ, ◌-◌, ◌≤◌, ◌≡◌, refl, false, List, [], ◌∷◌, arith}
use dawn_kestrel.Core.Result.{is_ok}
use dawn_kestrel.Llm.RateLimiter.{Rate, TokenBucket, earned, refill_tokens, try_acquire}
use dawn_kestrel.Llm.RateLimiter.Bounds.{Request, serve}

-- each request asks for something, before a token is earned since the one before it
abbrev pub Hasty : Rate → ℕ → List Request → Type 0
Hasty rate last [] = Unit
Hasty rate last (r ∷ rs) = (1 ≤ r.asked) × (earned rate (r.now - last) ≡ 0) × Hasty rate r.now rs

module _ (b : TokenBucket) (r : Request) where
  starved :
      b.tokens ≡ 0
      → 1 ≤ r.asked
      → earned b.refill_rate (r.now - b.last_refill_time) ≡ 0
      → (is_ok (try_acquire b "" r.asked r.now r.then_now).0 ≡ false)
        × ((try_acquire b "" r.asked r.now r.then_now).1.tokens ≡ 0)
        × ((try_acquire b "" r.asked r.now r.then_now).1.last_refill_time ≡ r.now)
        × ((try_acquire b "" r.asked r.now r.then_now).1.refill_rate ≡ b.refill_rate)
  unfolding try_acquire refill_tokens
  starved e a z = ground arith

-- An empty bucket whose callers never wait for a whole token grants nothing, however long they go on.
pub serve-Hasty :
    (b : TokenBucket) (rs : List Request)
    → b.tokens ≡ 0
    → Hasty b.refill_rate b.last_refill_time rs
    → (serve b rs).0 ≡ 0
unfolding serve
serve-Hasty b [] e h = refl
serve-Hasty b (r ∷ rs) e h =
    let b' = (try_acquire b "" r.asked r.now r.then_now).1 in
    let (refused, none_left, time, rate) = starved b r e h.0 h.1 in
    let later : Hasty b'.refill_rate b'.last_refill_time rs = rw (rate, time) h.2 in
    rw refused (omega (arith, serve-Hasty b' rs none_left later))

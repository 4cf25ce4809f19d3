-- ===== src/Llm/RateLimiter/Bounds.antt =====
-- What one token bucket of dawn_kestrel/llm/rate_limiter.py grants.
use native.Mathlib.Nat.{le-div_iff_mul-le, div-mul-le_self, div-zero}
use dawn_kestrel.Prelude.{
  ℕ, zero, suc, ◌+◌, ◌-◌, ◌*◌, ◌/◌, ◌≤◌, String, ◌≡◌, refl, ◌∙◌, ◌||◌, Bool, List, [], ◌∷◌, leb,
  if◌then◌else◌, arith,
}
use dawn_kestrel.Core.Result.{Result, is_ok}
use dawn_kestrel.Llm.RateLimiter.{
  Rate, second, TokenBucket, new_bucket, earned, refill_tokens, try_acquire, get_available,
}

div-add-le : (x y d : ℕ) → x / d + y / d ≤ (x + y) / d
div-add-le x y zero = rw (div-zero x, div-zero y, div-zero (x + y)) (omega arith)
div-add-le x y (suc k) =
    (le-div_iff_mul-le (omega arith)).1
      (omega (arith, div-mul-le_self x (suc k), div-mul-le_self y (suc k)))

pub earned-add : (r : Rate) (a b : ℕ) → earned r a + earned r b ≤ earned r (a + b)
unfolding earned
earned-add r a b =
    let h = div-add-le (a * r.tokens) (b * r.tokens) (r.seconds * second) in
    let e : (a + b) * r.tokens ≡ a * r.tokens + b * r.tokens = omega arith in rw e h

earned_mono : (r : Rate) (a b : ℕ) → a ≤ b → earned r a ≤ earned r b
earned_mono r a b h =
    let e : a + (b - a) ≡ b = omega arith in
    let sum : earned r a + earned r (b - a) ≤ earned r b = rw e at (earned-add r a (b - a)) in
    omega arith

-- a call of `try_acquire`
pub record Request : Type 0 where
  pub asked : ℕ
  pub now : ℕ
  pub then_now : ℕ

abbrev answer : TokenBucket → Request → Result Bool × TokenBucket
answer b r = try_acquire b "" r.asked r.now r.then_now

abbrev granted : TokenBucket → Request → ℕ
granted b r = if is_ok (answer b r).0 then r.asked else 0

-- the tokens that a sequence of calls is granted, and the bucket after it
unfoldable pub serve : TokenBucket → List Request → ℕ × TokenBucket
serve b [] = (0, b)
serve b (r ∷ rs) = let (n, b') = serve (answer b r).1 rs in (granted b r + n, b')

-- the readings of the clock do not run backwards from `start`, and end by `finish`
abbrev pub Within : ℕ → List Request → ℕ → Type 0
Within start [] finish = start ≤ finish
Within start (r ∷ rs) finish = (start ≤ r.now) × Within r.now rs finish

module _ (b : TokenBucket) (r : Request) (h : b.last_refill_time ≤ r.now) where
  step_pays :
      granted b r + (answer b r).1.tokens
      ≤ b.tokens + earned b.refill_rate ((answer b r).1.last_refill_time - b.last_refill_time)
  unfolding try_acquire
  step_pays = ground arith

  step_time :
      (b.last_refill_time ≤ (answer b r).1.last_refill_time)
      × ((answer b r).1.last_refill_time ≤ r.now)
  unfolding try_acquire
  step_time = ground arith

  step_rate : (answer b r).1.refill_rate ≡ b.refill_rate
  unfolding try_acquire
  step_rate = ground arith

Within-le : (rs : List Request) (start finish : ℕ) → Within start rs finish → start ≤ finish
Within-le [] start finish h = h
Within-le (r ∷ rs) start finish h = omega (arith, Within-le rs r.now finish h.1)

Within-from :
    (rs : List Request) (earlier start finish : ℕ)
    → earlier ≤ start
    → Within start rs finish
    → Within earlier rs finish
Within-from [] earlier start finish e h = omega arith
Within-from (r ∷ rs) earlier start finish e h = (omega arith, h.1)

serve_pays :
    (b : TokenBucket) (rs : List Request) (finish : ℕ)
    → Within b.last_refill_time rs finish
    → (serve b rs).0 ≤ b.tokens + earned b.refill_rate (finish - b.last_refill_time)
unfolding serve
serve_pays b [] finish h = omega arith
serve_pays b (r ∷ rs) finish h =
    let b' = (answer b r).1 in
    let time = step_time b r h.0 in
    let pays = step_pays b r h.0 in
    let ends : r.now ≤ finish = Within-le rs r.now finish h.1 in
    let l : ℕ = b.last_refill_time in
    let l' : ℕ = b'.last_refill_time in
    let later : Within l' rs finish = Within-from rs l' r.now finish time.1 h.1 in
    let ih : (serve b' rs).0 ≤ b'.tokens + earned b.refill_rate (finish - l') =
      rw (step_rate b r h.0) at (serve_pays b' rs finish later) in
    let whole : (l' - l) + (finish - l') ≡ finish - l = omega arith in
    let both : earned b.refill_rate (l' - l) + earned b.refill_rate (finish - l')
        ≤ earned b.refill_rate (finish - l) =
      rw whole at (earned-add b.refill_rate (l' - l) (finish - l')) in
    omega arith

-- Between its making and any later time a bucket grants at most its capacity and what its rate
-- has earned in that time, in however many calls, if the readings of the clock do not run
-- backwards.
pub serve-new_bucket-le :
    (capacity window start finish : ℕ) (rate : Rate) (rs : List Request)
    → Within start rs finish
    → (serve (new_bucket capacity rate window start) rs).0 ≤ capacity + earned rate (finish - start)
unfolding new_bucket
serve-new_bucket-le capacity window start finish rate rs h =
    serve_pays (new_bucket capacity rate window start) rs finish h

-- `try_acquire` answers `Ok` exactly when the tokens asked for are there, before or after a
-- refill; what it then deducts is what was asked, an `Err` deducts nothing, the time of the last
-- refill moves only when a refill was needed, and the capacity stays.
pub try_acquire_cases :
    (b : TokenBucket) (resource : String) (tokens now then_now : ℕ)
    → let (r, b') = try_acquire b resource tokens now then_now in
      let refilled = refill_tokens b now in
      (is_ok r ≡ (leb tokens b.tokens || leb tokens refilled.tokens))
      × (b'.tokens ≡ (
          if leb tokens b.tokens
          then b.tokens - tokens
          else if leb tokens refilled.tokens
          then refilled.tokens - tokens
          else refilled.tokens))
      × (b'.last_refill_time ≡ (if leb tokens b.tokens then b.last_refill_time else now))
      × (b'.capacity ≡ b.capacity)
unfolding try_acquire
try_acquire_cases b resource tokens now then_now = ground arith

-- a call of the bucket
pub data Call : Type 0 where
  acquire : (tokens now then_now : ℕ) → Call
  available : (now : ℕ) → Call

after : TokenBucket → Call → TokenBucket
after b (acquire tokens now then_now) = (try_acquire b "" tokens now then_now).1
after b (available now) = (get_available b "" now).1

unfoldable pub after_all : TokenBucket → List Call → TokenBucket
unfolding after
after_all b [] = b
after_all b (c ∷ cs) = after_all (after b c) cs

after-le :
    (b : TokenBucket) (c : Call) → b.tokens ≤ b.capacity → (after b c).tokens ≤ (after b c).capacity
unfolding after try_acquire get_available
after-le b (acquire tokens now then_now) h = ground arith
after-le b (available now) h = h

after-capacity : (b : TokenBucket) (c : Call) → (after b c).capacity ≡ b.capacity
unfolding after try_acquire get_available
after-capacity b (acquire tokens now then_now) = ground arith
after-capacity b (available now) = refl

-- A bucket that holds no more than its capacity never does, whatever is called and whatever the
-- times of the calls, and the capacity stays.
pub after_all-le :
    (b : TokenBucket) (cs : List Call)
    → b.tokens ≤ b.capacity
    → ((after_all b cs).tokens ≤ (after_all b cs).capacity)
      × ((after_all b cs).capacity ≡ b.capacity)
unfolding after_all
after_all-le b [] h = (h, refl)
after_all-le b (c ∷ cs) h =
    let (bounded, same) = after_all-le (after b c) cs (after-le b c h) in
    (bounded, same ∙ after-capacity b c)

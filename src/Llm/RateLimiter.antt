-- ===== src/Llm/RateLimiter.antt =====
-- dawn_kestrel/llm/rate_limiter.py. Times are microseconds of a clock that does not run backwards,
-- and each method is given the readings that it takes of it. A refill rate is an exact fraction of
-- tokens per second, where the source has a float; numbers of tokens are natural.
pub mod Bounds
pub mod Resources
pub mod Starvation
use dawn_kestrel.Prelude.{
  ℕ, ◌+◌, ◌-◌, ◌*◌, ◌/◌, min, String, Bool, true, false, Option, none, some, List, [], ◌∷◌, ◌++◌,
  Dict, lookup, insert, length, leb, ltb, Message, text, num, ◌&◌, if◌then◌else◌, string_eq,
}
use dawn_kestrel.Core.Result.{Result, ok, err_code}

-- tokens per second
pub record Rate : Type 0 where
  pub tokens : ℕ
  pub seconds : ℕ

abbrev pub second : ℕ
second = 1000000

pub record TokenBucket : Type 0 where
  pub capacity : ℕ
  pub refill_rate : Rate
  pub window_seconds : ℕ
  pub tokens : ℕ
  pub last_refill_time : ℕ
  pub request_times : List ℕ
  pub refills : List ℕ

unfoldable pub new_bucket :
    (capacity : ℕ) (refill_rate : Rate) (window_seconds now : ℕ) → TokenBucket
new_bucket capacity refill_rate window_seconds now = record {
  capacity = capacity;
  refill_rate = refill_rate;
  window_seconds = window_seconds;
  tokens = capacity;
  last_refill_time = now;
  request_times = [];
  refills = [];
}

-- `int(elapsed * self._refill_rate)`
unfoldable pub earned : Rate → ℕ → ℕ
earned r elapsed = elapsed * r.tokens / (r.seconds * second)

-- the requests that lie in the window
unfoldable pub recent : ℕ → ℕ → List ℕ → List ℕ
recent window now [] = []
recent window now (t ∷ ts) =
    let rest = recent window now ts in if ltb (now - t) (window * second) then t ∷ rest else rest

unfoldable pub refill_tokens : TokenBucket → ℕ → TokenBucket
unfolding earned
refill_tokens b now = record b {
  tokens = min (b.tokens + earned b.refill_rate (now - b.last_refill_time)) b.capacity;
  last_refill_time = now;
  refills = b.refills ++ now ∷ [];
  request_times = recent b.window_seconds now b.request_times;
}

-- the request is recorded and its tokens are deducted
take_tokens : TokenBucket → ℕ → ℕ → TokenBucket
take_tokens b tokens now = record b {
  request_times = b.request_times ++ now ∷ [];
  tokens = b.tokens - tokens;
}

-- `now` is the reading of the refill, `then_now` that of the record of the request.
unfoldable pub try_acquire :
    TokenBucket → String → (tokens now then_now : ℕ) → Result Bool × TokenBucket
unfolding refill_tokens take_tokens
try_acquire b resource tokens now then_now =
    if leb tokens b.tokens
    then (ok true, take_tokens b tokens then_now)
    else let refilled = refill_tokens b now in
      if leb tokens refilled.tokens then (ok true, take_tokens refilled tokens then_now) else (
        err_code
            (text "Not enough tokens for "
              & text resource
              & text ": need "
              & num tokens
              & text ", have "
              & num refilled.tokens)
            "RATE_LIMIT_EXCEEDED",
        refilled,
      )

unfoldable pub release : TokenBucket → String → Result (Unit {0}) × TokenBucket
release b resource = (ok tt, b)

unfoldable pub get_available : TokenBucket → String → ℕ → Result ℕ × TokenBucket
get_available b resource now =
    let times = recent b.window_seconds now b.request_times in
    (ok (length times), record b { request_times = times })

-- `RateLimiterImpl`
pub record RateLimiter : Type 0 where
  pub buckets : Dict String TokenBucket
  pub default_capacity : ℕ
  pub default_refill_rate : Rate
  pub default_window_seconds : ℕ

unfoldable pub new_limiter : ℕ → Rate → ℕ → RateLimiter
new_limiter capacity rate window = record {
  buckets = [];
  default_capacity = capacity;
  default_refill_rate = rate;
  default_window_seconds = window;
}

unfoldable pub set_limit : RateLimiter → String → ℕ → Rate → ℕ → ℕ → RateLimiter
unfolding new_bucket
set_limit l resource capacity rate window now = record l {
  buckets = insert resource (new_bucket capacity rate window now) l.buckets;
}

default_bucket : RateLimiter → ℕ → TokenBucket
unfolding new_bucket
default_bucket l now =
    new_bucket l.default_capacity l.default_refill_rate l.default_window_seconds now

-- the bucket, and the limiter that holds it
unfoldable pub get_or_create_bucket : RateLimiter → String → ℕ → TokenBucket × RateLimiter
unfolding default_bucket
get_or_create_bucket l resource now = elim (lookup resource l.buckets) [
  | some b ↦ (b, l)
  | none ↦ let b = default_bucket l now in (b, record l { buckets = insert resource b l.buckets })
]

-- A method of the bucket changes the bucket that the limiter holds.
abbrev store : RateLimiter → String → TokenBucket → RateLimiter
store l resource b = record l { buckets = insert resource b l.buckets }

unfoldable pub acquire :
    RateLimiter → String → (tokens now then_now : ℕ) → Result Bool × RateLimiter
unfolding get_or_create_bucket
acquire l resource tokens now then_now =
    let (b, l') = get_or_create_bucket l resource now in
    let (r, b') = try_acquire b resource tokens now then_now in (r, store l' resource b')

unfoldable pub release_resource : RateLimiter → String → ℕ → Result (Unit {0}) × RateLimiter
unfolding get_or_create_bucket
release_resource l resource now =
    let (b, l') = get_or_create_bucket l resource now in
    let (r, b') = release b resource in (r, store l' resource b')

unfoldable pub available : RateLimiter → String → ℕ → Result ℕ × RateLimiter
unfolding get_or_create_bucket
available l resource now =
    let (b, l') = get_or_create_bucket l resource now in
    let (r, b') = get_available b resource now in (r, store l' resource b')

unfoldable pub reset : RateLimiter → String → ℕ → Result (Unit {0}) × RateLimiter
unfolding default_bucket
reset l resource now =
    (ok tt, record l { buckets = insert resource (default_bucket l now) l.buckets })

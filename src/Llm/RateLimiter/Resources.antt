-- ===== src/Llm/RateLimiter/Resources.antt =====
-- The limiter of dawn_kestrel/llm/rate_limiter.py is a map of independent buckets.
use dawn_kestrel.Prelude.{
  ℕ, String, ◌≡◌, refl, inl, inr, false, Option, none, some, lookup, insert, lookup-insert,
  if◌then◌else◌, arith, Bool-cases, Option-cases, string_eq, ◌==◌, ==_refl,
}
use dawn_kestrel.Llm.RateLimiter.{
  Rate, TokenBucket, new_bucket, RateLimiter, get_or_create_bucket, try_acquire, get_available,
  acquire, available, reset, set_limit,
}

-- the bucket of a resource as a caller meets it: a new one where there is none
unfoldable pub bucket_at : RateLimiter → String → ℕ → TokenBucket
bucket_at l k now = elim (lookup k l.buckets) [
  | some b ↦ b
  | none ↦ new_bucket l.default_capacity l.default_refill_rate l.default_window_seconds now
]

-- the limiter's view of resource `j`
abbrev pub view : RateLimiter → String → Option TokenBucket
view l j = lookup j l.buckets

module _ (l : RateLimiter) (k : String) (now : ℕ) where
  found : (get_or_create_bucket l k now).0 ≡ bucket_at l k now
  unfolding get_or_create_bucket bucket_at
  found = ground arith

  kept :
      (j : String)
      → (k == j) ≡ false
      → lookup j (get_or_create_bucket l k now).1.buckets ≡ lookup j l.buckets
  unfolding get_or_create_bucket
  kept j e = elim (Option-cases (lookup k l.buckets)) [
    | inl fresh ↦ rw (fresh, get_or_create_bucket) (rw (lookup-insert, e))
    | inr (old, there) ↦ rw (there, get_or_create_bucket)
  ]

  others :
      (j : String) (b : TokenBucket)
      → lookup j (insert k b (get_or_create_bucket l k now).1.buckets)
        ≡ (if k == j then some b else view l j)
  others j b = elim (Bool-cases (k == j)) [
    | inl same ↦ rw (lookup-insert, same)
    | inr other ↦ rw (lookup-insert, other) (kept j other)
  ]

-- `try_acquire` of a limiter is `try_acquire` of the one bucket that its resource has, made on the
-- first call; the buckets of all other resources are untouched. So too for `get_available`.
pub acquire-bucket_at :
    (l : RateLimiter) (k j : String) (tokens now then_now : ℕ)
    → ((acquire l k tokens now then_now).0
        ≡ (try_acquire (bucket_at l k now) k tokens now then_now).0)
      × (view (acquire l k tokens now then_now).1 j ≡ (
          if k == j
          then some (try_acquire (bucket_at l k now) k tokens now then_now).1
          else view l j))
      × ((available l k now).0 ≡ (get_available (bucket_at l k now) k now).0)
      × (view (available l k now).1 j
          ≡ (if k == j then some (get_available (bucket_at l k now) k now).1 else view l j))
unfolding acquire available
acquire-bucket_at l k j tokens now then_now = (
  rw (found l k now),
  rw (← found l k now) (others l k now j _),
  rw (found l k now),
  rw (← found l k now) (others l k now j _),
)

-- After a reset the bucket has the limiter's defaults: what `set_limit` had set is lost.
pub reset-set_limit :
    (l : RateLimiter) (k : String) (capacity window now later : ℕ) (rate : Rate)
    → view (reset (set_limit l k capacity rate window now) k later).1 k
      ≡ some (new_bucket l.default_capacity l.default_refill_rate l.default_window_seconds later)
unfolding reset set_limit
reset-set_limit l k capacity window now later rate = rw (lookup-insert, ==_refl k)

-- `get_available` tells how many requests lie in the window, and never how many tokens are left.
pub available-tokens :
    (b : TokenBucket) (resource : String) (now tokens : ℕ)
    → (get_available (record b { tokens = tokens }) resource now).0
      ≡ (get_available b resource now).0
unfolding get_available
available-tokens b resource now tokens = refl

-- ===== src/Llm/ProviderLimits/Waiting.antt =====
-- How long a caller of `check_allowed` of provider_limits.py has to wait.
use dawn_kestrel.Prelude.{
  ℕ, ◌-◌, ◌*◌, ◌≤◌, ◌≡◌, refl, true, lookup-insert_self, leb, returns, Bool-cases, inl, inr, Text,
  list_eq, nat_eq, nat_beq, arith,
}
use dawn_kestrel.Core.Result.{ok}
use dawn_kestrel.Llm.ProviderLimits.{
  Bucket, RateLimitTracker, parts, allowed, waits, bucket_for, refilled, spend, check_allowed,
}

spend_refuses :
    (cost jitter missing rate wait : ℕ) (b : Bucket)
    → (spend cost jitter b).0 ≡ returns (ok (waits missing rate wait))
    → ((spend cost jitter b).1 ≡ b) × (missing ≡ cost * parts - b.tokens) × (rate ≡ b.refill_rate)
unfolding spend
spend_refuses cost jitter missing rate wait b h = elim (Bool-cases (leb (cost * parts) b.tokens)) [
  | inl enough ↦ cc (rw enough at h)
  | inr few ↦ elim (Bool-cases (nat_beq b.refill_rate 0)) [
    | inl still ↦ cc (rw (few, still) at h)
    | inr flows ↦
        let told : returns (ok (waits (cost * parts - b.tokens) b.refill_rate jitter))
            ≡ returns (ok (waits missing rate wait)) =
          rw (few, flows) at h in
        rw (few, flows) (refl, cc told, cc told)
  ]
]

spend_allows :
    (cost jitter : ℕ) (b : Bucket)
    → cost * parts ≤ b.tokens
    → (spend cost jitter b).0 ≡ returns (ok allowed)
unfolding spend
spend_allows cost jitter b h =
    let enough : leb (cost * parts) b.tokens ≡ true = ground arith in rw enough refl

-- a bucket that was refilled at one time, at a later one
earns :
    (cost now later missing rate : ℕ) (b : Bucket)
    → b.last_refill ≡ now
    → cost * parts ≤ b.capacity
    → missing ≡ cost * parts - b.tokens
    → rate ≡ b.refill_rate
    → missing ≤ (later - now) * rate
    → cost * parts ≤ (refilled later b).tokens
unfolding refilled
earns cost now later missing rate b last fits short same waited =
    let earned : missing ≤ (later - b.last_refill) * b.refill_rate = rw (last, ← same) waited in
    omega (arith, fits, short, earned)

-- Who is told to wait and asks again, with nobody else in between, once the time has earned the parts
-- of tokens that were missing, is allowed, unless the request costs more than the bucket can hold.
pub check_allowed_waits :
    (key : Text) (cost now jitter later jitter' missing rate wait : ℕ) (t : RateLimitTracker)
    → (check_allowed key cost now jitter t).0 ≡ returns (ok (waits missing rate wait))
    → cost * parts ≤ (bucket_for key now t).capacity
    → missing ≤ (later - now) * rate
    → (check_allowed key cost later jitter' (check_allowed key cost now jitter t).1).0
      ≡ returns (ok allowed)
check_allowed_waits key cost now jitter later jitter' missing rate wait t refused fits waited =
    let b = refilled now (bucket_for key now t) in
    let (still, short, same) =
      spend_refuses cost jitter missing rate wait b (unfold check_allowed in refused) in
    let there : bucket_for key later (check_allowed key cost now jitter t).1 ≡ b =
      unfold check_allowed bucket_for in
      rw (lookup-insert_self key (spend cost jitter b).1 t.buckets) still in
    let enough : cost * parts ≤ (refilled later b).tokens =
      earns cost now later missing rate b (unfold refilled in refl) (unfold refilled in fits) short
        same waited in
    unfold check_allowed in rw there (spend_allows cost jitter' (refilled later b) enough)

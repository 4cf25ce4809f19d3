-- ===== src/Llm/ProviderLimits/Spending.antt =====
-- What calls of `check_allowed` of provider_limits.py are allowed in a time. `reset` fills a bucket again,
-- and is not among the calls.
use dawn_kestrel.Prelude.{
  ℕ, ◌+◌, ◌-◌, ◌*◌, ◌≤◌, ◌≡◌, refl, min, Bool, true, false, ◌&&◌, Option, none, some, List, [], ◌∷◌,
  Dict, lookup, lookup-insert, leb, Outcome, returns, if◌then◌else◌, Bool-cases, inl, inr, Text,
  list_eq, list_beq, list_beq_iff, nat_eq, nat_beq, ◌==◌, arith,
}
use dawn_kestrel.Core.Result.{Result, ok}
use dawn_kestrel.Llm.ProviderLimits.{
  ProviderRateLimit, Bucket, RateLimitTracker, parts, Allowance, allowed, new_tracker, get_limit,
  new_bucket, bucket_for, refilled, spend, check_allowed, or_else,
}

abbrev pub is_allowed : Outcome (Result Allowance) → Bool
is_allowed (returns (ok allowed)) = true
is_allowed _ = false

-- a call of `check_allowed`
pub record Check : Type 0 where
  pub key : Text
  pub cost : ℕ
  pub now : ℕ
  pub jitter : ℕ

abbrev answer : RateLimitTracker → Check → Outcome (Result Allowance) × RateLimitTracker
answer t c = check_allowed c.key c.cost c.now c.jitter t

-- what a call is granted of a key
abbrev pub granted : Text → RateLimitTracker → Check → ℕ
granted key t c = if c.key == key && is_allowed (answer t c).0 then c.cost else 0

-- what a sequence of calls is granted of a key, and the tracker after it
unfoldable pub serve : Text → RateLimitTracker → List Check → ℕ × RateLimitTracker
serve key t [] = (0, t)
serve key t (c ∷ cs) = let (n, t') = serve key (answer t c).1 cs in (granted key t c + n, t')

-- the readings of the clock do not run backwards from `start`, and end by `finish`
abbrev pub Within : ℕ → List Check → ℕ → Type 0
Within start [] finish = start ≤ finish
Within start (c ∷ cs) finish = (start ≤ c.now) × Within c.now cs finish

-- the bucket of a key, if there is one, or a new one
abbrev bucket_of : ProviderRateLimit → ℕ → Option Bucket → Bucket
bucket_of l now o = or_else o (new_bucket l now)

-- the tokens of a key at a time
abbrev stock : ProviderRateLimit → ℕ → Option Bucket → ℕ
stock l now o = (refilled now (bucket_of l now o)).tokens

-- a bucket has the limit of its key, and was refilled before
abbrev IsKept : ProviderRateLimit → ℕ → Option Bucket → Type 0
IsKept l now none = Unit
IsKept l now (some b) =
    (b.refill_rate ≡ l.requests_per_minute)
    × (b.capacity ≡ l.requests_per_minute * parts)
    × (b.last_refill ≤ now)

spend_pays :
    (cost jitter : ℕ) (b : Bucket)
    → (if is_allowed (spend cost jitter b).0 then cost else 0) * parts
        + (spend cost jitter b).1.tokens
      ≡ b.tokens
unfolding spend
spend_pays cost jitter b = elim (Bool-cases (leb (cost * parts) b.tokens)) [
  | inl enough ↦ rw enough (ground arith)
  | inr few ↦ elim (Bool-cases (nat_beq b.refill_rate 0)) [
    | inl still ↦ rw (few, still) (omega arith)
    | inr flows ↦ rw (few, flows) (omega arith)
  ]
]

spend_keeps :
    (cost jitter : ℕ) (b : Bucket)
    → ((spend cost jitter b).1.refill_rate ≡ b.refill_rate)
      × ((spend cost jitter b).1.capacity ≡ b.capacity)
      × ((spend cost jitter b).1.last_refill ≡ b.last_refill)
unfolding spend
spend_keeps cost jitter b = ground arith

min_grows :
    (cap tokens rate last now later : ℕ)
    → last ≤ now
    → now ≤ later
    → min cap (tokens + (later - last) * rate)
      ≤ min cap (tokens + (now - last) * rate) + (later - now) * rate
min_grows cap tokens rate last now later h k =
    let whole : later - last ≡ (now - last) + (later - now) = omega arith in
    let both : (later - last) * rate ≡ (now - last) * rate + (later - now) * rate =
      rw whole (omega arith) in
    omega arith

stock_grows :
    (l : ProviderRateLimit) (now later : ℕ) (o : Option Bucket)
    → IsKept l now o
    → now ≤ later
    → stock l later o ≤ stock l now o + (later - now) * l.requests_per_minute
unfolding refilled new_bucket
stock_grows l now later none k h = omega arith
stock_grows l now later (some b) (rate, cap, last) h =
    rw (← rate) (min_grows b.capacity b.tokens b.refill_rate b.last_refill now later last h)

IsKept-later :
    (l : ProviderRateLimit) (now later : ℕ) (o : Option Bucket)
    → IsKept l now o
    → now ≤ later
    → IsKept l later o
IsKept-later l now later none k h = tt
IsKept-later l now later (some b) (rate, cap, last) h = (rate, cap, omega arith)

-- the bucket after a call
abbrev after : ProviderRateLimit → ℕ → ℕ → ℕ → Option Bucket → Bucket
after l cost now jitter o = (spend cost jitter (refilled now (bucket_of l now o))).1

after-IsKept :
    (l : ProviderRateLimit) (cost now jitter : ℕ) (o : Option Bucket)
    → IsKept l now o
    → IsKept l now (some (after l cost now jitter o))
unfolding refilled new_bucket
after-IsKept l cost now jitter none k =
    let keeps = spend_keeps cost jitter (refilled now (new_bucket l now)) in ground (arith, keeps)
after-IsKept l cost now jitter (some b) k =
    let keeps = spend_keeps cost jitter (refilled now b) in ground (arith, keeps)

spend_settles :
    (cost jitter now : ℕ) (b : Bucket)
    → b.last_refill ≡ now
    → (if is_allowed (spend cost jitter b).0 then cost else 0) * parts
        + (refilled now (spend cost jitter b).1).tokens
      ≤ b.tokens
unfolding refilled
spend_settles cost jitter now b h =
    let pays = spend_pays cost jitter b in
    let keeps = spend_keeps cost jitter b in
    let idle : now - (spend cost jitter b).1.last_refill ≡ 0 = rw keeps.2 (rw h (omega arith)) in
    let none_earned : (now - (spend cost jitter b).1.last_refill)
          * (spend cost jitter b).1.refill_rate
        ≡ 0 =
      rw idle (omega arith) in
    omega (arith, pays, none_earned)

stock-after :
    (l : ProviderRateLimit) (cost now jitter : ℕ) (o : Option Bucket)
    → (if is_allowed (spend cost jitter (refilled now (bucket_of l now o))).0 then cost else 0)
          * parts
        + stock l now (some (after l cost now jitter o))
      ≤ stock l now o
stock-after l cost now jitter o =
    spend_settles cost jitter now (refilled now (bucket_of l now o)) (unfold refilled in refl)

IsKept-after :
    (key : Text) (c : Check) (t : RateLimitTracker)
    → IsKept (get_limit key t) c.now (lookup key t.buckets)
    → IsKept (get_limit key t) c.now (lookup key (answer t c).1.buckets)
unfolding check_allowed bucket_for
IsKept-after key c t k = elim (Bool-cases (list_beq c.key key)) [
  | inl same ↦
      let e : c.key ≡ key = (list_beq_iff c.key key).0 same in
      let found =
        lookup-insert c.key key
          (spend c.cost c.jitter (refilled c.now (bucket_for c.key c.now t))).1 t.buckets in
      rw found (
        rw same
          (rw e (after-IsKept (get_limit key t) c.cost c.now c.jitter (lookup key t.buckets) k)))
  | inr other ↦
      let found =
        lookup-insert c.key key
          (spend c.cost c.jitter (refilled c.now (bucket_for c.key c.now t))).1 t.buckets in
      rw found (rw other k)
]

step_pays :
    (key : Text) (c : Check) (t : RateLimitTracker)
    → granted key t c * parts + stock (get_limit key t) c.now (lookup key (answer t c).1.buckets)
      ≤ stock (get_limit key t) c.now (lookup key t.buckets)
unfolding check_allowed bucket_for
step_pays key c t = elim (Bool-cases (list_beq c.key key)) [
  | inl same ↦
      let e : c.key ≡ key = (list_beq_iff c.key key).0 same in
      let found =
        lookup-insert c.key key
          (spend c.cost c.jitter (refilled c.now (bucket_for c.key c.now t))).1 t.buckets in
      rw found (
        rw same (rw e (stock-after (get_limit key t) c.cost c.now c.jitter (lookup key t.buckets))))
  | inr other ↦
      let found =
        lookup-insert c.key key
          (spend c.cost c.jitter (refilled c.now (bucket_for c.key c.now t))).1 t.buckets in
      rw found (rw other (omega arith))
]

Within-le : (cs : List Check) (start finish : ℕ) → Within start cs finish → start ≤ finish
Within-le [] start finish h = h
Within-le (c ∷ cs) start finish h = omega (arith, Within-le cs c.now finish h.1, h.0)

serve_pays :
    (key : Text) (l : ProviderRateLimit) (cs : List Check) (t : RateLimitTracker) (start finish : ℕ)
    → get_limit key t ≡ l
    → Within start cs finish
    → IsKept l start (lookup key t.buckets)
    → (serve key t cs).0 * parts
      ≤ stock l start (lookup key t.buckets) + (finish - start) * l.requests_per_minute
unfolding serve
serve_pays key l [] t start finish e h k = omega arith
serve_pays key l (c ∷ cs) t start finish e h k =
    let t' = (answer t c).1 in
    let now : ℕ = c.now in
    let grown = stock_grows l start now (lookup key t.buckets) k h.0 in
    let k' = IsKept-later l start now (lookup key t.buckets) k h.0 in
    let paid : granted key t c * parts + stock l now (lookup key t'.buckets)
        ≤ stock l now (lookup key t.buckets) =
      rw e at (step_pays key c t) in
    let kept : IsKept l now (lookup key t'.buckets) = rw e at (IsKept-after key c t (rw e k')) in
    let same : get_limit key t' ≡ l = unfold check_allowed get_limit in e in
    let rest = serve_pays key l cs t' now finish same h.1 kept in
    let ends : now ≤ finish = Within-le cs now finish h.1 in
    let whole : finish - start ≡ (now - start) + (finish - now) = omega arith in
    let both : (finish - start) * l.requests_per_minute
        ≡ (now - start) * l.requests_per_minute + (finish - now) * l.requests_per_minute =
      rw whole (omega arith) in
    omega (arith, grown, paid, rest, both)

-- Between its making and any later time a tracker of which only `check_allowed` is called, and no key is
-- reset, allows of a provider at most its requests per minute and what these earn in that time, in
-- however many calls, those about other providers among them, if the readings of the clock do not run
-- backwards.
pub serve-new_tracker-le :
    (limits : Option (Dict Text ProviderRateLimit)) (default : Option ProviderRateLimit)
    (key : Text) (cs : List Check) (start finish : ℕ)
    → Within start cs finish
    → let l = get_limit key (new_tracker limits default) in
      (serve key (new_tracker limits default) cs).0 * parts
      ≤ l.requests_per_minute * parts + (finish - start) * l.requests_per_minute
serve-new_tracker-le limits default key cs start finish h =
    let t = new_tracker limits default in
    let l = get_limit key t in
    let missing : lookup key t.buckets ≡ none = unfold new_tracker lookup in refl in
    let kept : IsKept l start (lookup key t.buckets) = rw missing tt in
    let full : stock l start (lookup key t.buckets) ≤ l.requests_per_minute * parts =
      rw missing (unfold refilled new_bucket in omega arith) in
    omega (arith, serve_pays key l cs t start finish refl h kept, full)

-- ===== src/Llm/ProviderLimits.antt =====
-- dawn_kestrel/llm/provider_limits.py: the limits of providers, and `LocalRateLimitTracker`. Times are
-- whole milliseconds of a clock that does not run backwards, and tokens are counted in parts of a
-- sixty-thousandth, so that a refill, a number of requests per minute, is exact. Multipliers are
-- hundredths. Random numbers and what a header means as a number or a date are arguments.
pub mod Spending
pub mod Waiting
use dawn_kestrel.Prelude.{
  ℕ, suc, ◌+◌, ◌-◌, ◌*◌, ◌/◌, ◌^◌, min, Bool, true, false, ◌&&◌, Option, none, some, List, [], ◌∷◌,
  Dict, lookup, insert, delete, leb, ltb, text, Outcome, returns, raises, if◌then◌else◌, Text,
  codes, list_eq, nat_eq, nat_beq, ◌==◌,
}
use dawn_kestrel.Core.Result.{Result, ok}

pub record ProviderRateLimit : Type 0 where
  pub requests_per_minute : ℕ
  pub tokens_per_minute : ℕ
  pub concurrent_requests : ℕ
  pub retry_after_multiplier : ℕ
  pub jitter_range : ℕ × ℕ
  pub backoff_base : ℕ
  pub backoff_max : ℕ

unfoldable pub calculate_backoff_with_jitter : ProviderRateLimit → ℕ → ℕ → ℕ
calculate_backoff_with_jitter l attempt jitter =
    min (l.backoff_base * 2 ^ attempt) l.backoff_max + jitter

-- what a header that is not empty reads as: a number, a date that far in the future, or neither
pub data Header : Type 0 where
  seconds date : ℕ → Header
  unreadable : Header

unfoldable pub parse_retry_after : ProviderRateLimit → Option Header → ℕ
parse_retry_after l (some (seconds n)) = n * l.retry_after_multiplier / 100
parse_retry_after l (some (date delta)) = delta * l.retry_after_multiplier / 100
parse_retry_after l _ = l.backoff_base * l.retry_after_multiplier / 100

abbrev pub limit_of : ℕ → ℕ → ℕ → ProviderRateLimit
limit_of requests tokens concurrent = record {
  requests_per_minute = requests;
  tokens_per_minute = tokens;
  concurrent_requests = concurrent;
  retry_after_multiplier = 150;
  jitter_range = (100, 500);
  backoff_base = 1000;
  backoff_max = 60000;
}

unfoldable pub default_limit : ProviderRateLimit
default_limit = limit_of 60 100000 5

unfoldable pub provider_limits : Dict Text ProviderRateLimit
provider_limits =
    (codes "openai", limit_of 500 200000 10)
    ∷ (codes "anthropic", limit_of 60 100000 5)
    ∷ (codes "zai", limit_of 60 100000 5)
    ∷ (codes "zai_coding_plan", limit_of 60 100000 3)
    ∷ (codes "github_copilot", limit_of 100 50000 5)
    ∷ []

-- `provider_id.lower().replace("-", "_")`, for identifiers of ASCII letters
unfoldable pub provider_key : Text → Text
provider_key [] = []
provider_key (c ∷ s) =
    let rest = provider_key s in
    if leb b'A' c && leb c b'Z'
    then (c + 32) ∷ rest
    else if nat_beq c b'-'
    then b'_' ∷ rest
    else c ∷ rest

-- a value that may be missing, or a default
abbrev pub or_else {ℓ} : {A : Type ℓ} → Option A → A → A
or_else none default = default
or_else (some a) default = a

unfoldable pub get_provider_limit : Text → ProviderRateLimit
unfolding provider_limits provider_key default_limit
get_provider_limit provider_id =
    or_else (lookup (provider_key provider_id) provider_limits) default_limit

pub record Bucket : Type 0 where
  pub tokens : ℕ
  pub last_refill : ℕ
  -- requests per minute, which is parts of a token per millisecond
  pub refill_rate : ℕ
  pub capacity : ℕ

pub record RateLimitTracker : Type 0 where
  pub limits : Dict Text ProviderRateLimit
  pub default_limit : ProviderRateLimit
  pub buckets : Dict Text Bucket
  pub counts_429 : Dict Text ℕ
  pub last_time_429 : Dict Text ℕ

-- the parts of a token
abbrev pub parts : ℕ
parts = 60000

-- Allowed, or to wait: the parts of tokens that are missing, by the refill rate, and the jitter.
pub data Allowance : Type 0 where
  allowed : Allowance
  waits : ℕ → ℕ → ℕ → Allowance

-- `limits or PROVIDER_LIMITS`: no limits at all are as good as none given
abbrev pub or_provider_limits : Option (Dict Text ProviderRateLimit) → Dict Text ProviderRateLimit
or_provider_limits (some (l ∷ limits)) = l ∷ limits
or_provider_limits _ = provider_limits

unfoldable pub new_tracker :
    Option (Dict Text ProviderRateLimit) → Option ProviderRateLimit → RateLimitTracker
new_tracker limits default = record {
  limits = or_provider_limits limits;
  default_limit = or_else default default_limit;
  buckets = [];
  counts_429 = [];
  last_time_429 = [];
}

unfoldable pub get_limit : Text → RateLimitTracker → ProviderRateLimit
get_limit key t = or_else (lookup key t.limits) t.default_limit

unfoldable pub new_bucket : ProviderRateLimit → ℕ → Bucket
new_bucket l now = record {
  tokens = l.requests_per_minute * parts;
  last_refill = now;
  refill_rate = l.requests_per_minute;
  capacity = l.requests_per_minute * parts;
}

unfoldable pub bucket_for : Text → ℕ → RateLimitTracker → Bucket
unfolding get_limit new_bucket
bucket_for key now t = or_else (lookup key t.buckets) (new_bucket (get_limit key t) now)

unfoldable pub refilled : ℕ → Bucket → Bucket
refilled now b = record b {
  tokens = min b.capacity (b.tokens + (now - b.last_refill) * b.refill_rate);
  last_refill = now;
}

-- the tokens of a refilled bucket against a cost; a division by a rate of 0 raises
unfoldable pub spend : ℕ → ℕ → Bucket → Outcome (Result Allowance) × Bucket
spend cost jitter b =
    if leb (cost * parts) b.tokens
    then (returns (ok allowed), record b { tokens = b.tokens - cost * parts })
    else if nat_beq b.refill_rate 0
    then (raises (text "float division by zero"), b)
    else (returns (ok (waits (cost * parts - b.tokens) b.refill_rate jitter)), b)

unfoldable pub check_allowed :
    Text → ℕ → ℕ → ℕ → RateLimitTracker → Outcome (Result Allowance) × RateLimitTracker
unfolding bucket_for refilled spend
check_allowed key cost now jitter t =
    let (answer, b) = spend cost jitter (refilled now (bucket_for key now t)) in
    (answer, record t { buckets = insert key b t.buckets })

-- the count, begun anew five minutes after the last response
abbrev pub recent_count : Option ℕ → ℕ → ℕ → ℕ
recent_count none now count = count
recent_count (some last) now count = if ltb 300000 (now - last) then 0 else count

unfoldable pub record_429 : Text → ℕ → RateLimitTracker → RateLimitTracker
record_429 key now t =
    let count =
      recent_count (lookup key t.last_time_429) now (or_else (lookup key t.counts_429) 0) in
    record t {
      counts_429 = insert key (count + 1) t.counts_429;
      last_time_429 = insert key now t.last_time_429;
    }

unfoldable pub reset : Text → RateLimitTracker → RateLimitTracker
reset key t = record t {
  buckets = delete key t.buckets;
  counts_429 = delete key t.counts_429;
  last_time_429 = delete key t.last_time_429;
}

unfoldable pub get_429_count : Text → RateLimitTracker → ℕ
get_429_count key t = or_else (lookup key t.counts_429) 0

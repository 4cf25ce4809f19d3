-- ===== src/Tests/Limits.antt =====
-- dawn_kestrel/llm/rate_limiter.py and bulkhead.py
use dawn_kestrel.Prelude.{
  ℕ, ◌+◌, ◌-◌, ◌≤◌, ◌≡◌, refl, List, [], ◌∷◌, lookup, insert, contains, add, remove, string_eq,
  arith,
}
use dawn_kestrel.Llm.RateLimiter.{
  Rate, TokenBucket, new_bucket, refill_tokens, earned, recent, try_acquire,
}
use dawn_kestrel.Llm.RateLimiter.Bounds.{Request, serve, serve-new_bucket-le}
use dawn_kestrel.Llm.RateLimiter.Starvation.{serve-Hasty}
use dawn_kestrel.Llm.Bulkhead.{
  Bulkhead, new_bulkhead, set_limit, get_limit, permits, release, try_execute, ending, Ending,
  value, timeout,
}
use dawn_kestrel.Llm.Bulkhead as Bulkheads
use dawn_kestrel.Llm.Bulkhead.Permits.{
  Event, enter, leave, limit, initial, step, count, drop_one, after_all-count-le,
}
use dawn_kestrel.Llm.Bulkhead.Permits as Permits
use dawn_kestrel.Llm.Bulkhead.Leak.{acquires, releases, releases-acquires}

-- one token in two seconds
abbrev slow : Rate
slow = record { tokens = 1; seconds = 2 }

abbrev bucket : TokenBucket
bucket = new_bucket 2 slow 60 0

abbrev request : ℕ → Request
request t = record { asked = 1; now = t; then_now = t }

abbrev requests : List Request
requests = request 0 ∷ request 0 ∷ request 1000000 ∷ request 4000000 ∷ request 4000001 ∷ []

-- two from the start and one for three seconds: the second before the third request is lost
serves_three : (serve bucket requests).0 ≡ 3
unfolding serve new_bucket try_acquire refill_tokens earned recent
serves_three = refl

serve-new_bucket-le_example : (serve bucket requests).0 ≤ 2 + earned slow (9000000 - 0)
serve-new_bucket-le_example = serve-new_bucket-le 2 60 0 9000000 slow requests (omega arith)

abbrev dry : TokenBucket
dry = record bucket { tokens = 0 }

-- a request every second, for a bucket that earns a token in two
serve-Hasty_example : (serve dry (request 1000000 ∷ request 2000000 ∷ request 3000000 ∷ [])).0 ≡ 0
unfolding new_bucket earned
serve-Hasty_example =
    serve-Hasty dry (request 1000000 ∷ request 2000000 ∷ request 3000000 ∷ []) refl
      (omega arith, refl, (omega arith, refl, (omega arith, refl, tt)))

abbrev events : List Event
events =
    limit "openai" 2
    ∷ enter "openai"
    ∷ enter "openai"
    ∷ enter "zai"
    ∷ enter "openai"
    ∷ leave "openai"
    ∷ leave "openai"
    ∷ enter "openai"
    ∷ enter "openai"
    ∷ []

-- after two releases only one permit has come back
one_runs : (Permits.after_all initial events).running ≡ "openai" ∷ "zai" ∷ []
unfolding initial new_bulkhead set_limit Permits.after_all step permits get_limit
    Bulkheads.try_acquire release drop_one lookup insert contains add remove
one_runs = refl

after_all-count-le_example : count "openai" (Permits.after_all initial events).running ≤ 2
after_all-count-le_example =
    after_all-count-le "openai" 2 events (omega arith) (λ e. omega arith, tt)

abbrev three : Bulkhead
three = set_limit new_bulkhead "openai" 3

releases-acquires_example :
    permits (releases 3 (acquires 3 three "openai") "openai") "openai" ≡ permits three "openai" - 2
unfolding permits get_limit set_limit new_bulkhead insert lookup
releases-acquires_example = releases-acquires 2 three "openai" (omega arith)

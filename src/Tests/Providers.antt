-- ===== src/Tests/Providers.antt =====
-- dawn_kestrel/llm/provider_limits.py and dawn_kestrel/core/mediator.py
use dawn_kestrel.Prelude.{
  ℕ, ◌+◌, ◌-◌, ◌*◌, ◌≤◌, ◌≡◌, refl, none, some, List, [], ◌∷◌, ◌++◌, Outcome, returns, raises, text,
  codes, if◌then◌else◌, arith, lookup, insert, ◌==◌, nat_eq,
}
use dawn_kestrel.Core.Result.{ok}
use dawn_kestrel.Core.Mediator.{
  domain, system, Event, Handler, new_mediator, publish, subscribe, unsubscribe,
}
use dawn_kestrel.Core.Mediator.Routing.{
  Op, subscribes, unsubscribes, apply_all, active, recipients, call_each, publish-call_each,
}
use dawn_kestrel.Llm.ProviderLimits.{
  RateLimitTracker, parts, allowed, limit_of, new_tracker, get_limit, bucket_for, check_allowed,
}
use dawn_kestrel.Llm.ProviderLimits.Spending.{Check, serve, serve-new_tracker-le}
use dawn_kestrel.Llm.ProviderLimits.Waiting.{check_allowed_waits}

abbrev tracker : RateLimitTracker
tracker = new_tracker (some ((codes "zai", limit_of 2 0 1) ∷ [])) none

abbrev check : ℕ → ℕ → Check
check cost now = record { key = codes "zai"; cost = cost; now = now; jitter = 100 }

abbrev checks : List Check
checks = check 1 0 ∷ check 1 10 ∷ check 1 20 ∷ check 1 30020 ∷ []

serve-new_tracker-le_example :
    (serve (codes "zai") tracker checks).0 * parts
    ≤ (get_limit (codes "zai") tracker).requests_per_minute * parts
      + (30020 - 0) * (get_limit (codes "zai") tracker).requests_per_minute
serve-new_tracker-le_example =
    serve-new_tracker-le (some ((codes "zai", limit_of 2 0 1) ∷ [])) none (codes "zai") checks 0
      30020 (omega arith, (omega arith, (omega arith, (omega arith, omega arith))))

allows_three : (serve (codes "zai") tracker checks).0 ≡ 3
unfolding serve new_tracker check_allowed lookup insert
allows_three = refl

abbrev spent : RateLimitTracker
spent = (check_allowed (codes "zai") 2 0 100 tracker).1

check_allowed_waits_example :
    (check_allowed (codes "zai") 1 30000 100 (check_allowed (codes "zai") 1 0 100 spent).1).0
    ≡ returns (ok allowed)
unfolding new_tracker check_allowed bucket_for lookup insert
check_allowed_waits_example =
    check_allowed_waits (codes "zai") 1 0 100 30000 100 60000 2 100 spent refl (omega arith)
      (omega arith)

-- The world counts the calls of each handler; handler 9 raises.
abbrev handle : Handler → Event ℕ → List Handler → Outcome (Unit {0}) × List Handler
handle h event w = (if h == 9 then raises (text "boom") else returns tt, w ++ h ∷ [])

abbrev event : Event ℕ
event = record { event_type = domain; source = "cli"; target = none; payload = 5 }

abbrev ops : List Op
ops =
    subscribes domain 1 none
    ∷ subscribes system 2 none
    ∷ subscribes domain 3 (some "cli")
    ∷ subscribes domain 4 (some "tui")
    ∷ subscribes domain 9 none
    ∷ subscribes domain 5 none
    ∷ unsubscribes domain 1
    ∷ []

publish-call_each_example :
    publish handle event (apply_all ops new_mediator) []
    ≡ call_each handle (recipients event (active domain ops [])) event []
publish-call_each_example = publish-call_each handle ops event []

-- 5 is never called
stops_at_the_first : (publish handle event (apply_all ops new_mediator) []).1 ≡ 3 ∷ 9 ∷ []
unfolding publish new_mediator apply_all subscribe unsubscribe lookup insert
stops_at_the_first = refl

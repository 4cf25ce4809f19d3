-- ===== src/Tests/Caches.antt =====
-- dawn_kestrel/tools/cache.py
use dawn_kestrel.Prelude.{
  ℕ, ◌≡◌, ◌⊎◌, refl, String, true, false, Option, none, some, List, [], ◌∷◌, lookup, ◌++◌,
  if◌then◌else◌, arith, ◌==◌, nat_eq, string_eq, insert, delete, move_to_end, contains,
}
use dawn_kestrel.Tools.Cache.{
  CacheEntry, ToolOutput, ToolResultCache, new_cache, new_entry, is_expired, get, set, is_cacheable,
  evict, evict_oldest, make_room, store, invalidate, resize, keys_of, shrink, evict_all,
}
use dawn_kestrel.Tools.Cache.Lookups.{get-set}
use dawn_kestrel.Tools.Cache.History.{
  Call, gets, sets, invalidates, resizes, step, IsSound, Accounts, step-Accounts, run-IsSound,
}
use dawn_kestrel.Tools.Cache.History as History
use dawn_kestrel.Tools.Cache.Herd.{
  Caller, Request, Event, look, claim, finish, fail, cancel, leave, wake, Herd, new_herd, key_of,
  act, act_in, executing, waiting, done, answers, result, cancelled, unset,
}
use dawn_kestrel.Tools.Cache.Herd as Herd
use dawn_kestrel.Tools.Cache.Herd.Alone.{is_owner, run-alone}
use dawn_kestrel.Tools.Cache.Herd.Waiters.{run-served}
use dawn_kestrel.Tools.Cache.Herd.Stuck.{IsStuck, run-IsStuck}

-- the arguments of a tool are a number
abbrev key : String → ℕ → String
key tool_name n = if n == 0 then "first" else if n == 1 then "second" else tool_name

abbrev cached : ToolResultCache ℕ ℕ
cached = new_cache 1 300 none none

abbrev output : ToolOutput ℕ
output = record { output = "ok"; title = "Read"; metadata = none; attachments = none }

abbrev calls : List (Call ℕ ℕ)
calls =
    sets "read" 0 output none 10
    ∷ gets "read" 0 20
    ∷ sets "read" 1 output (some 5) 30
    ∷ gets "read" 1 36
    ∷ gets "read" 0 36
    ∷ gets "bash" 0 36
    ∷ resizes 3
    ∷ sets "grep" 2 output none 40
    ∷ invalidates (some "grep")
    ∷ []

-- one hit; one entry is too old, and one was evicted: one eviction each for room, age and the call
counts_calls :
    ◌≡◌ {A = ℕ × ℕ × ℕ}
      (elim (History.run key cached calls) [
        | none ↦ (0, 0, 0)
        | some c ↦ (c.hits, c.misses, c.evictions)
      ])
      (1, 2, 3)
unfolding new_cache History.run step get set invalidate resize is_cacheable contains store make_room
    lookup insert new_entry move_to_end delete evict_oldest evict shrink evict_all keys_of
counts_calls = refl

run-IsSound_example :
    (c : ToolResultCache ℕ ℕ) × (History.run key cached calls ≡ some c) × IsSound c
run-IsSound_example =
    run-IsSound key 1 300 none none calls (omega arith)
      (tt, (tt, (tt, (tt, (tt, (tt, (omega arith, (tt, (tt, tt)))))))))

step-Accounts_example :
    (c' : ToolResultCache ℕ ℕ) × (step key cached (sets "read" 0 output none 10) ≡ some c')
    × Accounts key cached (sets "read" 0 output none 10) c'
unfolding new_cache
step-Accounts_example =
    step-Accounts key cached (sets "read" 0 output none 10) tt
      (record { positive = omega arith; within = omega arith; distinct = tt })

abbrev filled : ToolResultCache ℕ ℕ
filled = record cached { cache = ("first", new_entry cached "read" 0 output (some 5) 10) ∷ [] }

get-set_example : (get key filled "read" 0 16).0 ≡ (
    if is_expired (new_entry cached "read" 0 output (some 5) 10) 16
    then none
    else some (record (new_entry cached "read" 0 output (some 5) 10) { access_count = 1 }))
unfolding new_cache is_cacheable contains set store make_room insert
get-set_example =
    get-set key 1 cached filled "read" 0 output (some 5) 10 16 (omega arith) (omega arith) refl refl

expires : (get key filled "read" 0 16).0 ≡ none
unfolding get new_cache new_entry is_cacheable contains lookup
expires = refl

-- the callers 0, 1 and 2 ask for the same
abbrev requests : Caller → Request ℕ
requests i = record { tool_name = "read"; tool_args = if i == 3 then 1 else 0; ttl_seconds = none }

abbrev started : List (Caller × Event ℕ)
started =
    (0, look 1)
    ∷ (1, look 1)
    ∷ (1, claim 2)
    ∷ (0, claim 2)
    ∷ (3, look 3)
    ∷ (3, claim 3)
    ∷ (2, look 4)
    ∷ []

run-alone_example : is_owner ((Herd.run key requests started (new_herd cached)).phase 0) ≡ false
unfolding new_cache Herd.run new_herd act act_in is_cacheable contains lookup insert
run-alone_example = run-alone key requests cached started 1 0 refl refl (λ e. cc e)

run-served_example :
    let h = Herd.run key requests started (new_herd cached) in
    (h.phase 1 ≡ executing)
    ⊎ ((r : Option (CacheEntry ℕ ℕ)) × (h.futures 1 ≡ result r)
        × ((act key requests (2, wake) h).phase 2 ≡ done (answers r true)))
unfolding new_cache Herd.run new_herd act act_in is_cacheable contains lookup insert
run-served_example =
    run-served key requests cached started 2 1
      (refl, (refl, (refl, (refl, (refl, (refl, (refl, tt))))))) refl

-- the executor is cancelled, and leaves
abbrev orphaned : Herd ℕ ℕ
orphaned = Herd.run key requests (started ++ (1, cancel) ∷ (1, leave) ∷ []) (new_herd cached)

abbrev afterwards : List (Caller × Event ℕ)
afterwards = (2, wake) ∷ (3, finish output 5) ∷ (3, leave) ∷ (2, wake) ∷ []

run-IsStuck_example : IsStuck 2 1 (Herd.run key requests afterwards orphaned)
unfolding new_cache Herd.run new_herd act act_in is_cacheable contains lookup insert delete
run-IsStuck_example =
    run-IsStuck key requests afterwards 2 1 orphaned (refl, (refl, (refl, (refl, tt))))
      (refl, refl, refl)

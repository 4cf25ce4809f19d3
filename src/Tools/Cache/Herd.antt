-- ===== src/Tools/Cache/Herd.antt =====
-- `aget_or_execute` of tools/cache.py with any number of callers at once. Between two awaits a
-- caller runs alone, so each event below is what one caller does from one await to the next, and a
-- list of events is an interleaving. The locks count as awaits, although they are always free when
-- they are asked for: the interleavings of the event loop are among those of the model. A future is
-- set once, and is cancelled with a task that waits for it.
pub mod Alone
pub mod Watch
pub mod Waiters
pub mod Stuck
use dawn_kestrel.Prelude.{
  ℕ, suc, ◌+◌, String, Bool, true, false, Option, none, some, List, [], ◌∷◌, Dict, lookup, insert,
  delete, length, if◌then◌else◌, string_eq, nat_eq, ◌==◌,
}
use dawn_kestrel.Tools.Cache.{
  CacheEntry, ToolResultCache, ToolOutput, is_cacheable, is_expired, evict, touch, miss, new_entry,
  store, or_nonzero,
}

-- a call of `aget_or_execute`
abbrev pub Caller : Type 0
Caller = ℕ

pub record Request (Args : Type 0) : Type 0 where
  pub tool_name : String
  pub tool_args : Args
  pub ttl_seconds : Option ℕ

pub data Future (Args Value : Type 0) : Type 0 where
  unset : Future Args Value
  result : Option (CacheEntry Args Value) → Future Args Value
  cancelled : Future Args Value

-- what a call gives back, or the exception that leaves it
pub data Reply (Args Value : Type 0) : Type 0 where
  answers : Option (CacheEntry Args Value) → Bool → Reply Args Value
  raised : Reply Args Value
  invalid_state : Reply Args Value
  cancelled : Reply Args Value

-- Where a caller stands: before the first lock, before the second, waiting for another caller's
-- future, in `execute_fn` with or without the key claimed, before the lock of `finally`, at the end.
pub data Phase (Args Value : Type 0) : Type 0 where
  asking claiming : Phase Args Value
  waiting : Caller → Phase Args Value
  executing direct : Phase Args Value
  leaving done : Reply Args Value → Phase Args Value

pub data Event (Value : Type 0) : Type 0 where
  look claim : ℕ → Event Value
  finish : ToolOutput Value → ℕ → Event Value
  fail cancel leave wake : Event Value

module _ (Args Value : Type 0) where
  pub record Herd : Type 0 where
    pub cache : ToolResultCache Args Value
    pub pending : Dict String Caller
    pub futures : Caller → Future Args Value
    pub phase : Caller → Phase Args Value

module _ {Args Value : Type 0} where
  unfoldable pub with_phase : Caller → Phase Args Value → Herd Args Value → Herd Args Value
  with_phase i p h = record h { phase = λ j. if i == j then p else h.phase j }

  -- `future.set_result`, which raises on a future that is cancelled
  unfoldable pub set_result : Future Args Value → Option (CacheEntry Args Value) → Future Args Value
  set_result unset r = result r
  set_result (result r) _ = result r
  set_result cancelled _ = cancelled

  unfoldable pub set_future : Caller → Future Args Value → Herd Args Value → Herd Args Value
  set_future f v h = record h { futures = λ j. if f == j then v else h.futures j }

  -- the reply of an executor, once it has tried to set its future
  unfoldable pub unless_cancelled : Future Args Value → Reply Args Value → Reply Args Value
  unless_cancelled cancelled _ = invalid_state
  unless_cancelled _ reply = reply

  -- `Task.cancel` of a task that waits for a future
  unfoldable pub cancel_future : Future Args Value → Future Args Value
  cancel_future unset = cancelled
  cancel_future v = v

  -- the lines after `await pending_future`
  unfoldable pub woken : Caller → Herd Args Value → Future Args Value → Herd Args Value
  unfolding with_phase
  woken i h unset = h
  woken i h (result none) = with_phase i (done (answers none true)) h
  woken i h (result (some entry)) =
      with_phase i (done (answers (some entry) true))
        (record h { cache = record h.cache { hits = h.cache.hits + 1 } })
  woken i h cancelled = with_phase i (done cancelled) h

  -- An executor ends with a reply for itself and a result for those who wait.
  unfoldable pub settle :
      Caller → Reply Args Value → Option (CacheEntry Args Value) → Herd Args Value → Herd Args Value
  unfolding with_phase set_future set_result unless_cancelled
  settle i reply r h =
      with_phase i (leaving (unless_cancelled (h.futures i) reply))
        (set_future i (set_result (h.futures i) r) h)

  -- A caller whose store loops for ever does not go on.
  unfoldable pub stored :
      Caller
      → CacheEntry Args Value
      → Herd Args Value
      → Option (ToolResultCache Args Value)
      → Herd Args Value
  unfolding settle
  stored i entry h none = h
  stored i entry h (some cache) =
      settle i (answers (some entry) false) (some entry) (record h { cache = cache })

-- the key of a caller
abbrev pub key_of :
    {Args : Type 0} → (String → Args → String) → (Caller → Request Args) → Caller → String
key_of make_key requests i = make_key (requests i).tool_name (requests i).tool_args

-- `make_key` and the requests of the callers
module _ {Args Value : Type 0} (make_key : String → Args → String)
    (requests : Caller → Request Args) where
  unfoldable pub hit : Caller → CacheEntry Args Value → Herd Args Value → Herd Args Value
  unfolding with_phase touch
  hit i entry h =
      let (used, cache) = touch (key_of make_key requests i) entry h.cache in
      with_phase i (done (answers (some used) true)) (record h { cache = cache })

  -- no entry: the first check waits or goes on to the second
  unfoldable pub after_look : Caller → Herd Args Value → Option Caller → Herd Args Value
  unfolding with_phase
  after_look i h none = with_phase i claiming h
  after_look i h (some f) = with_phase i (waiting f) h

  -- no entry: the second check waits or claims the key
  unfoldable pub after_claim : Caller → Herd Args Value → Option Caller → Herd Args Value
  unfolding with_phase miss
  after_claim i h none =
      with_phase i executing (record h {
        pending = insert (key_of make_key requests i) i h.pending;
        cache = miss h.cache;
      })
  after_claim i h (some f) = with_phase i (waiting f) h

  unfoldable pub first_check :
      Caller → ℕ → Herd Args Value → Option (CacheEntry Args Value) → Herd Args Value
  unfolding after_look hit
  first_check i now h none = after_look i h (lookup (key_of make_key requests i) h.pending)
  first_check i now h (some entry) =
      if is_expired entry now
      then after_look i (record h { cache = evict (key_of make_key requests i) h.cache })
          (lookup (key_of make_key requests i) h.pending)
      else hit i entry h

  unfoldable pub second_check :
      Caller → ℕ → Herd Args Value → Option (CacheEntry Args Value) → Herd Args Value
  unfolding after_claim hit
  second_check i now h none = after_claim i h (lookup (key_of make_key requests i) h.pending)
  second_check i now h (some entry) =
      if is_expired entry now
      then after_claim i h (lookup (key_of make_key requests i) h.pending)
      else hit i entry h

  unfoldable pub entry_of : Caller → Herd Args Value → ToolOutput Value → ℕ → CacheEntry Args Value
  entry_of i h out now =
      new_entry h.cache (requests i).tool_name (requests i).tool_args out (requests i).ttl_seconds
        now

  -- what a caller in a phase does at an event; an event that does not fit its phase is no step
  unfoldable pub act_in :
      Phase Args Value → Caller → Event Value → Herd Args Value → Herd Args Value
  unfolding first_check second_check stored settle woken with_phase set_future cancel_future
      entry_of
  act_in asking i (look now) h =
      if is_cacheable h.cache (requests i).tool_name
      then first_check i now h (lookup (key_of make_key requests i) h.cache.cache)
      else with_phase i direct h
  act_in asking i cancel h = with_phase i (done cancelled) h
  act_in claiming i (claim now) h =
      second_check i now h (lookup (key_of make_key requests i) h.cache.cache)
  act_in claiming i cancel h = with_phase i (done cancelled) h
  act_in (waiting f) i wake h = woken i h (h.futures f)
  act_in (waiting f) i cancel h =
      with_phase i (done cancelled) (set_future f (cancel_future (h.futures f)) h)
  act_in executing i (finish out now) h =
      let entry = entry_of i h out now in
      stored i entry h
        (store (suc (length h.cache.cache)) h.cache (key_of make_key requests i) entry)
  act_in executing i fail h = settle i raised none h
  act_in executing i cancel h = with_phase i (leaving cancelled) h
  act_in direct i (finish out now) h =
      with_phase i (done (answers (some (entry_of i h out now)) false)) h
  act_in direct i fail h = with_phase i (done raised) h
  act_in direct i cancel h = with_phase i (done cancelled) h
  act_in (leaving reply) i leave h =
      with_phase i (done reply)
        (record h { pending = delete (key_of make_key requests i) h.pending })
  -- cancelled before the lock of `finally`: the key stays claimed
  act_in (leaving reply) i cancel h = with_phase i (done cancelled) h
  act_in _ _ _ h = h

  unfoldable pub act : Caller × Event Value → Herd Args Value → Herd Args Value
  act (i, e) h = act_in (h.phase i) i e h

  unfoldable pub run : List (Caller × Event Value) → Herd Args Value → Herd Args Value
  run [] h = h
  run (e ∷ es) h = run es (act e h)

module _ {Args Value : Type 0} where
  unfoldable pub new_herd : ToolResultCache Args Value → Herd Args Value
  new_herd cache = record { cache = cache; pending = []; futures = λ _. unset; phase = λ _. asking }

-- ===== src/Tools/Cache/History.antt =====
-- Any sequence of calls of `get`, `set`, `invalidate` and `resize` of the cache of tools/cache.py, each at
-- its own clock reading. `aget_or_execute` is not among them: Herd is about it.
use dawn_kestrel.Prelude.{
  ℕ, suc, ◌+◌, ◌-◌, ◌≤◌, ◌<◌, ◌≡◌, refl, String, true, Option, none, some, List, [], ◌∷◌, Dict,
  lookup, delete, length, drop, if◌then◌else◌, Bool-cases, inl, inr, string_eq, Distinct,
  length-drop, length-delete, length-insert, drop-Distinct, delete-Distinct, insert-Distinct,
  move_to_end, move_to_end-Distinct, length-append, All, arith,
}
use dawn_kestrel.Tools.Cache.{
  CacheEntry, ToolResultCache, ToolOutput, new_cache, set, get, invalidate, resize, is_cacheable,
  is_expired, answer, miss, touch, new_entry,
}
use dawn_kestrel.Tools.Cache.Room.{evict_found, set_returns, stored, surplus, resize_lem}
use dawn_kestrel.Tools.Cache.Lookups.{invalidate-others, kept-Distinct}

pub data Call (Args Value : Type 0) : Type 0 where
  gets : String → Args → ℕ → Call Args Value
  sets : String → Args → ToolOutput Value → Option ℕ → ℕ → Call Args Value
  invalidates : Option String → Call Args Value
  resizes : ℕ → Call Args Value

module _ {Args Value : Type 0} where
  pub record IsSound (c : ToolResultCache Args Value) : Type 0 where
    pub positive : 0 < c.max_size
    pub within : length c.cache ≤ c.max_size
    pub distinct : Distinct c.cache

  -- no resize to 0
  abbrev pub KeepsSize : Call Args Value → Type 0
  KeepsSize (resizes n) = 0 < n
  KeepsSize _ = Unit

  -- the lookups that a call counts, and the entries that it can add
  abbrev pub lookups : ToolResultCache Args Value → Call Args Value → ℕ
  lookups c (gets tool_name _ _) = if is_cacheable c tool_name then 1 else 0
  lookups c _ = 0

  abbrev pub additions : ToolResultCache Args Value → Call Args Value → ℕ
  additions c (sets tool_name _ _ _ _) = if is_cacheable c tool_name then 1 else 0
  additions c _ = 0

module _ {Args Value : Type 0} (make_key : String → Args → String) where
  -- one turn more than there are entries
  unfoldable pub step :
      ToolResultCache Args Value → Call Args Value → Option (ToolResultCache Args Value)
  step c (gets tool_name tool_args now) = some (get make_key c tool_name tool_args now).1
  step c (sets tool_name tool_args out ttl now) =
      set make_key (suc (length c.cache)) c tool_name tool_args out ttl now
  step c (invalidates tool_name) = some (invalidate tool_name c).1
  step c (resizes n) = some (resize n c).1

  abbrev pub Accounts :
      ToolResultCache Args Value → Call Args Value → ToolResultCache Args Value → Type 0
  Accounts c call c' =
      IsSound c'
      × (c'.hits + c'.misses ≡ c.hits + c.misses + lookups c call)
      × (c.evictions + length c.cache ≤ c'.evictions + length c'.cache)
      × (c'.evictions + length c'.cache ≤ c.evictions + length c.cache + additions c call)

  moved :
      (k : String) (entry used : CacheEntry Args Value) (d : Dict String (CacheEntry Args Value))
      → lookup k d ≡ some entry
      → length (move_to_end k used d) ≡ length d
  unfolding move_to_end
  moved k entry used d e =
      omega (arith, length-append (delete k d) ((k, used) ∷ []), length-delete k entry d e)

  answer-Accounts :
      (c : ToolResultCache Args Value) (tool_name : String) (tool_args : Args) (now : ℕ)
      (found : Option (CacheEntry Args Value))
      → is_cacheable c tool_name ≡ true
      → lookup (make_key tool_name tool_args) c.cache ≡ found
      → IsSound c
      → Accounts c
          (gets tool_name tool_args now)
          (answer make_key (make_key tool_name tool_args) now c found).1
  unfolding answer miss touch
  answer-Accounts c tool_name tool_args now none k e v = rw k (
    record { positive = v.positive; within = v.within; distinct = v.distinct },
    omega arith,
    omega arith,
    omega arith,
  )
  answer-Accounts c tool_name tool_args now (some entry) k e v =
      let key = make_key tool_name tool_args in
      elim (Bool-cases (is_expired entry now)) [
        | inl old ↦
            let shorter = length-delete key entry c.cache e in
            rw (old, k)
              (rw (evict_found key entry c e) (
                record {
                  positive = v.positive;
                  within = omega (arith, shorter, v.within);
                  distinct = delete-Distinct key c.cache v.distinct;
                },
                omega arith,
                omega (arith, shorter),
                omega (arith, shorter),
              ))
        | inr fresh ↦
            let used = record entry { access_count = entry.access_count + 1 } in
            let same = moved key entry used c.cache e in
            rw (fresh, k)
              (
                record {
                  positive = v.positive;
                  within = omega (arith, same, v.within);
                  distinct = move_to_end-Distinct key used c.cache v.distinct;
                },
                omega arith,
                omega (arith, same),
                omega (arith, same),
              )
      ]

  pub gets-Accounts :
      (c : ToolResultCache Args Value) (tool_name : String) (tool_args : Args) (now : ℕ)
      → IsSound c
      → Accounts c (gets tool_name tool_args now) (get make_key c tool_name tool_args now).1
  unfolding get
  gets-Accounts c tool_name tool_args now v = elim (Bool-cases (is_cacheable c tool_name)) [
    | inl cacheable ↦
        rw (cacheable, get)
          (rw cacheable at (answer-Accounts c tool_name tool_args now _ cacheable refl v))
    | inr other ↦ rw (other, get) (v, omega arith, omega arith, omega arith)
  ]

  pub resizes-Accounts :
      (c : ToolResultCache Args Value) (n : ℕ)
      → 0 < n
      → IsSound c
      → Accounts c (resizes n) (resize n c).1
  resizes-Accounts c n h v = rw (resize_lem n c) (
      let over = length-drop (length c.cache - n) c.cache in
      (
        record {
          positive = h;
          within = omega (arith, over);
          distinct = drop-Distinct (length c.cache - n) c.cache v.distinct;
        },
        omega arith,
        omega (arith, over),
        omega (arith, over),
      ))

  pub invalidates-Accounts :
      (c : ToolResultCache Args Value) (tool_name : Option String)
      → IsSound c
      → Accounts c (invalidates tool_name) (invalidate tool_name c).1
  invalidates-Accounts c tool_name v =
      let (left, sizes) = invalidate-others tool_name c v.distinct in
      let smaller : length (invalidate tool_name c).1.cache ≤ length c.cache =
        omega (arith, sizes) in
      rw left (
        record {
          positive = v.positive;
          within = omega (arith, rw left at smaller, v.within);
          distinct = kept-Distinct tool_name c.cache v.distinct;
        },
        omega arith,
        omega (arith, rw left at sizes),
        omega (arith, rw left at sizes),
      )

  pub sets-Accounts :
      (c : ToolResultCache Args Value) (tool_name : String) (tool_args : Args)
      (out : ToolOutput Value) (ttl : Option ℕ) (now : ℕ)
      → IsSound c
      → (c' : ToolResultCache Args Value) × (set make_key
            (suc (length c.cache))
            c
            tool_name
            tool_args
            out
            ttl
            now
          ≡ some c')
        × Accounts c (sets tool_name tool_args out ttl now) c'
  sets-Accounts c tool_name tool_args out ttl now v =
      let result =
        set_returns make_key (suc (length c.cache)) c tool_name tool_args out ttl now v.positive
          (omega arith) in
      let key = make_key tool_name tool_args in
      let entry = new_entry c tool_name tool_args out ttl now in
      let dropped = length-drop (surplus c) c.cache in
      let longer = length-insert key entry (drop (surplus c) c.cache) in
      elim (Bool-cases (is_cacheable c tool_name)) [
        | inl cacheable ↦ (
          stored make_key c tool_name tool_args out ttl now,
          rw result (rw cacheable refl),
          rw cacheable (
            record {
              positive = v.positive;
              within = omega (arith, dropped, longer);
              distinct = insert-Distinct key entry _ (drop-Distinct (surplus c) c.cache v.distinct);
            },
            omega arith,
            omega (arith, dropped, longer),
            omega (arith, dropped, longer),
          ),
        )
        | inr other ↦
            (c, rw result (rw other refl), rw other (v, omega arith, omega arith, omega arith))
      ]

  -- Every call of `get`, `set`, `invalidate` or `resize` on a sound cache (its maximum size at least 1
  -- and not exceeded, its keys distinct) returns, provided that it is no resize to 0, and leaves a sound
  -- cache. Of these four, a `get` of a tool that is to be cached counts one hit or one miss, and all
  -- others count none. No entry is lost uncounted by them: the entries and the evictions together never
  -- become fewer, and only `set` of a tool that is to be cached makes them more, by one at most.
  pub step-Accounts :
      (c : ToolResultCache Args Value) (call : Call Args Value)
      → KeepsSize call
      → IsSound c
      → (c' : ToolResultCache Args Value) × (step c call ≡ some c') × Accounts c call c'
  unfolding step
  step-Accounts c (gets tool_name tool_args now) h v =
      (_, refl, gets-Accounts c tool_name tool_args now v)
  step-Accounts c (sets tool_name tool_args out ttl now) h v =
      sets-Accounts c tool_name tool_args out ttl now v
  step-Accounts c (invalidates tool_name) h v = (_, refl, invalidates-Accounts c tool_name v)
  step-Accounts c (resizes n) h v = (_, refl, resizes-Accounts c n h v)

  unfoldable pub run :
      ToolResultCache Args Value → List (Call Args Value) → Option (ToolResultCache Args Value)
  run c [] = some c
  run c (call ∷ calls) = elim (step c call) [ none ↦ none | some c' ↦ run c' calls ]

  run_from :
      (c : ToolResultCache Args Value) (calls : List (Call Args Value))
      → All KeepsSize calls
      → IsSound c
      → (c' : ToolResultCache Args Value) × (run c calls ≡ some c') × IsSound c'
  unfolding run
  run_from c [] h v = (c, refl, v)
  run_from c (call ∷ calls) (first, h) v =
      let (c', stepped, accounts) = step-Accounts c call first v in
      let (last, ran, end) = run_from c' calls h accounts.0 in (last, rw (stepped, run) ran, end)

  -- In whatever order `get`, `set`, `invalidate` and `resize` are called on a new cache, with a maximum
  -- size of at least 1 and never resized to 0, each of these calls returns, no key stands twice, and
  -- there are never more entries than the maximum size.
  pub run-IsSound :
      (max_size default_ttl : ℕ) (cacheable non_cacheable : Option (List String))
      (calls : List (Call Args Value))
      → 0 < max_size
      → All KeepsSize calls
      → (c : ToolResultCache Args Value) × (run
            (new_cache max_size default_ttl cacheable non_cacheable)
            calls
          ≡ some c)
        × IsSound c
  unfolding new_cache
  run-IsSound max_size default_ttl cacheable non_cacheable calls h k =
      run_from _ calls k (record { positive = h; within = omega arith; distinct = tt })

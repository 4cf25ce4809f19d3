-- ===== src/Tools/Cache/Lookups.antt =====
-- `get` and `invalidate` of tools/cache.py.
use mathlib.Core.List.{append_assoc}
use dawn_kestrel.Prelude.{
  ℕ, ◌+◌, ◌<◌, ◌≡◌, refl, String, true, false, Option, none, some, [], ◌∷◌, Dict, lookup, length,
  if◌then◌else◌, Bool-cases, inl, inr, string_eq, ◌==◌, lookup-insert_self, Distinct, delete_middle,
  ◌++◌, subst, ap, ◌∙◌, arith,
}
use dawn_kestrel.Tools.Cache.{
  CacheEntry, ToolResultCache, ToolOutput, evict, evict_all, keys_of, invalidate, new_entry, set,
  get, is_cacheable, is_expired,
}
use dawn_kestrel.Tools.Cache.Room.{stored, set_returns}

module _ {Args Value : Type 0} (make_key : String → Args → String) where
  found :
      (c : ToolResultCache Args Value) (tool_name : String) (tool_args : Args)
      (entry : CacheEntry Args Value) (now : ℕ)
      → is_cacheable c tool_name ≡ true
      → lookup (make_key tool_name tool_args) c.cache ≡ some entry
      → (get make_key c tool_name tool_args now).0 ≡ (
          if is_expired entry now
          then none
          else some (record entry { access_count = entry.access_count + 1 }))
  unfolding get
  found c tool_name tool_args entry now h e = elim (Bool-cases (is_expired entry now)) [
    | inl old ↦ rw h (rw e (rw old refl))
    | inr fresh ↦ rw h (rw e (rw fresh refl))
  ]

  -- What `set` has stored, `get` finds with its access counted, until its time to live has passed:
  -- from then on `get` finds nothing.
  pub get-set :
      (fuel : ℕ) (c c' : ToolResultCache Args Value) (tool_name : String) (tool_args : Args)
      (out : ToolOutput Value) (ttl : Option ℕ) (now later : ℕ)
      → 0 < c.max_size
      → length c.cache < fuel
      → is_cacheable c tool_name ≡ true
      → set make_key fuel c tool_name tool_args out ttl now ≡ some c'
      → let entry = new_entry c tool_name tool_args out ttl now in
        (get make_key c' tool_name tool_args later).0
        ≡ (if is_expired entry later then none else some (record entry { access_count = 1 }))
  unfolding new_entry is_cacheable
  get-set fuel c c' tool_name tool_args out ttl now later h l k e =
      let after = stored make_key c tool_name tool_args out ttl now in
      let same : after ≡ c' =
        cc (set_returns make_key fuel c tool_name tool_args out ttl now h l, k, e) in
      let entry = new_entry c tool_name tool_args out ttl now in
      subst
        (λ t.
          (get make_key t tool_name tool_args later).0
          ≡ (if is_expired entry later then none else some (record entry { access_count = 1 })))
        same
        (found after tool_name tool_args entry later k
          (lookup-insert_self (make_key tool_name tool_args) _ _))

module _ {Args Value : Type 0} where
  -- the entries of other tools
  pub others : String → Dict String (CacheEntry Args Value) → Dict String (CacheEntry Args Value)
  others tool_name [] = []
  others tool_name ((k, entry) ∷ d) =
      let rest = others tool_name d in
      if entry.tool_name == tool_name then rest else (k, entry) ∷ rest

  evict_middle :
      (front d : Dict String (CacheEntry Args Value)) (k : String) (entry : CacheEntry Args Value)
      (c : ToolResultCache Args Value)
      → Distinct (front ++ (k, entry) ∷ d)
      → evict k (record c { cache = front ++ (k, entry) ∷ d })
        ≡ record c { cache = front ++ d; evictions = c.evictions + 1 }
  unfolding evict
  evict_middle front d k entry c h =
      let (deleted, found, _) = delete_middle front k entry d h in
      rw (found, evict) (rw deleted refl)

  own_entry :
      (k tool_name : String) (entry : CacheEntry Args Value)
      (d : Dict String (CacheEntry Args Value))
      → (entry.tool_name == tool_name) ≡ true
      → (keys_of tool_name ((k, entry) ∷ d) ≡ k ∷ keys_of tool_name d)
        × (others tool_name ((k, entry) ∷ d) ≡ others tool_name d)
  unfolding keys_of others
  own_entry k tool_name entry d h = (rw h refl, rw h refl)

  other_entry :
      (k tool_name : String) (entry : CacheEntry Args Value)
      (d : Dict String (CacheEntry Args Value))
      → (entry.tool_name == tool_name) ≡ false
      → (keys_of tool_name ((k, entry) ∷ d) ≡ keys_of tool_name d)
        × (others tool_name ((k, entry) ∷ d) ≡ (k, entry) ∷ others tool_name d)
  unfolding keys_of others
  other_entry k tool_name entry d h = (rw h refl, rw h refl)

  evict_all-keys_of :
      (front d : Dict String (CacheEntry Args Value)) (tool_name : String)
      (c : ToolResultCache Args Value)
      → Distinct (front ++ d)
      → evict_all (keys_of tool_name d) (record c { cache = front ++ d }) ≡ record c {
        cache = front ++ others tool_name d;
        evictions = c.evictions + length (keys_of tool_name d);
      }
  unfolding evict_all
  evict_all-keys_of front [] tool_name c h = unfold keys_of others in (ground arith)
  evict_all-keys_of front ((k, entry) ∷ d) tool_name c h =
      let (_, _, distinct) = delete_middle front k entry d h in
      elim (Bool-cases (entry.tool_name == tool_name)) [
        | inl own ↦
            rw ((own_entry k tool_name entry d own).0, (own_entry k tool_name entry d own).1)
              (ap (evict_all (keys_of tool_name d)) (evict_middle front d k entry c h)
                ∙ evict_all-keys_of front d tool_name (record c { evictions = c.evictions + 1 })
                    distinct
                ∙ ground arith)
        | inr other ↦
            rw
              ((other_entry k tool_name entry d other).0, (other_entry k tool_name entry d other).1)
              (rw
                (
                  append_assoc front ((k, entry) ∷ []) d,
                  append_assoc front ((k, entry) ∷ []) (others tool_name d),
                )
                at
                (evict_all-keys_of (front ++ (k, entry) ∷ []) d tool_name c
                  (rw (append_assoc front ((k, entry) ∷ []) d) h)))
      ]

  length-others :
      (tool_name : String) (d : Dict String (CacheEntry Args Value))
      → length (others tool_name d) + length (keys_of tool_name d) ≡ length d
  unfolding others keys_of
  length-others tool_name [] = omega arith
  length-others tool_name ((k, entry) ∷ d) = ground (arith, length-others tool_name d)

  lookup-others-none :
      (j tool_name : String) (d : Dict String (CacheEntry Args Value))
      → lookup j d ≡ none
      → lookup j (others tool_name d) ≡ none
  unfolding others lookup
  lookup-others-none j tool_name [] h = refl
  lookup-others-none j tool_name ((k, entry) ∷ d) h =
      ground (arith, lookup-others-none j tool_name d)

  others-Distinct :
      (tool_name : String) (d : Dict String (CacheEntry Args Value))
      → Distinct d
      → Distinct (others tool_name d)
  unfolding others
  others-Distinct tool_name [] h = tt
  others-Distinct tool_name ((k, entry) ∷ d) h = elim (Bool-cases (entry.tool_name == tool_name)) [
    | inl own ↦ rw own (others-Distinct tool_name d h.1)
    | inr other ↦ rw other (lookup-others-none k tool_name d h.0, others-Distinct tool_name d h.1)
  ]

  -- what an invalidation leaves
  abbrev pub kept :
      Option String → Dict String (CacheEntry Args Value) → Dict String (CacheEntry Args Value)
  kept none d = []
  kept (some tool_name) d = others tool_name d

  pub kept-Distinct :
      (tool_name : Option String) (d : Dict String (CacheEntry Args Value))
      → Distinct d
      → Distinct (kept tool_name d)
  kept-Distinct none d h = tt
  kept-Distinct (some tool_name) d h = others-Distinct tool_name d h

  -- Invalidating the entries of one tool, in a cache whose keys are distinct, leaves the entries of
  -- all other tools in their order, and the number that it answers is the number of entries gone and
  -- of evictions counted; invalidating all leaves none.
  pub invalidate-others :
      (tool_name : Option String) (c : ToolResultCache Args Value)
      → Distinct c.cache
      → let (count, c') = invalidate tool_name c in
        (c' ≡ record c { cache = kept tool_name c.cache; evictions = c.evictions + count })
        × (length c'.cache + count ≡ length c.cache)
  unfolding invalidate
  invalidate-others none c h = (refl, omega arith)
  invalidate-others (some tool_name) c h =
      let evicted = evict_all-keys_of [] c.cache tool_name c h in
      (evicted, rw evicted (length-others tool_name c.cache))

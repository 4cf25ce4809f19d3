-- ===== src/Tools/Cache/Room.antt =====
-- `set` of tools/cache.py: how it makes room, and what it leaves.
use dawn_kestrel.Prelude.{
  ℕ, zero, suc, ◌+◌, ◌-◌, ◌<◌, ◌≡◌, refl, String, true, Option, none, some, [], ◌∷◌, Dict, lookup,
  insert, delete, length, drop, leb, ltb, if◌then◌else◌, Bool-cases, inl, inr, string_eq, ==_refl,
  arith,
}
use dawn_kestrel.Tools.Cache.{
  CacheEntry, ToolResultCache, ToolOutput, evict, evict_oldest, make_room, new_entry, store, set,
  shrink, resize, is_cacheable,
}

zero_sub : (n : ℕ) → 0 - n ≡ 0
zero_sub n = omega arith

module _ {Args Value : Type 0} where
  -- the oldest `n` entries go
  abbrev pub forget : ℕ → ToolResultCache Args Value → ToolResultCache Args Value
  forget n c = record c { cache = drop n c.cache; evictions = c.evictions + n }

  -- as many as leave a place
  abbrev pub surplus : ToolResultCache Args Value → ℕ
  surplus c = length c.cache + 1 - c.max_size

  pub evict_found :
      (k : String) (entry : CacheEntry Args Value) (c : ToolResultCache Args Value)
      → lookup k c.cache ≡ some entry
      → evict k c ≡ record c { cache = delete k c.cache; evictions = c.evictions + 1 }
  unfolding evict
  evict_found k entry c h = rw (h, evict) refl

  evict_oldest_lem :
      (k : String) (x : CacheEntry Args Value) (d : Dict String (CacheEntry Args Value))
      (c : ToolResultCache Args Value)
      → evict_oldest (record c { cache = (k, x) ∷ d })
        ≡ record c { cache = d; evictions = c.evictions + 1 }
  unfolding evict_oldest evict lookup delete
  evict_oldest_lem k x d c = ground (arith, ==_refl k)

  make_room_at :
      (fuel : ℕ) (d : Dict String (CacheEntry Args Value)) (c : ToolResultCache Args Value)
      → 0 < c.max_size
      → length d < fuel
      → make_room fuel (record c { cache = d })
        ≡ some (forget (surplus (record c { cache = d })) (record c { cache = d }))
  unfolding make_room
  make_room_at zero d c h l = absurd (omega arith)
  make_room_at (suc fuel) [] c h l =
      let none_over : 1 - c.max_size ≡ 0 = omega arith in rw none_over (ground arith)
  make_room_at (suc fuel) ((k, x) ∷ d) c h l = elim (Bool-cases (leb c.max_size (suc (length d)))) [
    | inl full ↦
        let one_over : suc (length d) + 1 - c.max_size ≡ suc (length d + 1 - c.max_size) =
          ground arith in
        rw (full, one_over)
          (rw evict_oldest_lem (
            rw (make_room_at fuel d (record c { evictions = c.evictions + 1 }) h (omega arith))
              (ground arith)))
    | inr roomy ↦
        let none_over : suc (length d) + 1 - c.max_size ≡ 0 = ground arith in
        rw (roomy, none_over) (ground arith)
  ]

  pub make_room_lem :
      (fuel : ℕ) (c : ToolResultCache Args Value)
      → 0 < c.max_size
      → length c.cache < fuel
      → make_room fuel c ≡ some (forget (surplus c) c)
  make_room_lem fuel c h l = make_room_at fuel c.cache c h l

  shrink_at :
      (d : Dict String (CacheEntry Args Value)) (c : ToolResultCache Args Value)
      → shrink d (record c { cache = d })
        ≡ (length d - c.max_size, forget (length d - c.max_size) (record c { cache = d }))
  unfolding shrink
  shrink_at [] c = rw (zero_sub c.max_size) (ground arith)
  shrink_at ((k, x) ∷ d) c = elim (Bool-cases (ltb c.max_size (suc (length d)))) [
    | inl over ↦
        let one_over : suc (length d) - c.max_size ≡ suc (length d - c.max_size) = ground arith in
        rw (over, one_over)
          (rw (evict_oldest_lem k x d c, shrink_at d (record c { evictions = c.evictions + 1 }))
            (ground arith))
    | inr within ↦
        let none_over : suc (length d) - c.max_size ≡ 0 = ground arith in
        rw (within, none_over) (ground arith)
  ]

  -- Resizing, to 0 as well, drops the oldest entries that are too many, and answers how many.
  pub resize_lem :
      (new_max_size : ℕ) (c : ToolResultCache Args Value)
      → let over = length c.cache - new_max_size in
        resize new_max_size c ≡ (over, forget over (record c { max_size = new_max_size }))
  unfolding resize
  resize_lem new_max_size c = shrink_at c.cache (record c { max_size = new_max_size })

  evict_oldest-max_size_at :
      (d : Dict String (CacheEntry Args Value)) (c : ToolResultCache Args Value)
      → (evict_oldest (record c { cache = d })).max_size ≡ c.max_size
  unfolding evict_oldest
  evict_oldest-max_size_at [] c = refl
  evict_oldest-max_size_at ((k, x) ∷ d) c = rw evict_oldest_lem refl

  pub make_room_never :
      (fuel : ℕ) (c : ToolResultCache Args Value) → c.max_size ≡ 0 → make_room fuel c ≡ none
  unfolding make_room
  make_room_never zero c h = refl
  make_room_never (suc fuel) c h =
      ground (arith, evict_oldest-max_size_at c.cache c, make_room_never fuel (evict_oldest c))

module _ {Args Value : Type 0} (make_key : String → Args → String) where
  -- the entry under its key, once the oldest have gone
  abbrev pub stored :
      ToolResultCache Args Value
      → String
      → Args
      → ToolOutput Value
      → Option ℕ
      → ℕ
      → ToolResultCache Args Value
  stored c tool_name tool_args out ttl now = record (forget (surplus c) c) {
    cache =
        insert (make_key tool_name tool_args) (new_entry c tool_name tool_args out ttl now)
          (drop (surplus c) c.cache);
  }

  -- Once the maximum size is at least 1, `set` returns. It drops the oldest entries, as many as leave
  -- a place, counts them as evictions, and puts the new entry under its key, with the default for a
  -- time to live that is missing or 0. For a tool whose results are not to be cached it does nothing.
  pub set_returns :
      (fuel : ℕ) (c : ToolResultCache Args Value) (tool_name : String) (tool_args : Args)
      (out : ToolOutput Value) (ttl : Option ℕ) (now : ℕ)
      → 0 < c.max_size
      → length c.cache < fuel
      → set make_key fuel c tool_name tool_args out ttl now ≡ (
          if is_cacheable c tool_name
          then some (stored c tool_name tool_args out ttl now)
          else some c)
  unfolding set store
  set_returns fuel c tool_name tool_args out ttl now h l =
      elim (Bool-cases (is_cacheable c tool_name)) [
        | inl cacheable ↦ rw cacheable (rw (make_room_lem fuel c h l, store) refl)
        | inr other ↦ rw other refl
      ]

  -- A cache whose maximum size is 0 never returns from `set` of a tool that is to be cached: there is
  -- nothing to evict, and the loop goes on whatever the number of turns.
  pub set_hangs :
      (fuel : ℕ) (c : ToolResultCache Args Value) (tool_name : String) (tool_args : Args)
      (out : ToolOutput Value) (ttl : Option ℕ) (now : ℕ)
      → c.max_size ≡ 0
      → is_cacheable c tool_name ≡ true
      → set make_key fuel c tool_name tool_args out ttl now ≡ none
  unfolding set store
  set_hangs fuel c tool_name tool_args out ttl now h k =
      rw k (rw (make_room_never fuel c h, store) refl)

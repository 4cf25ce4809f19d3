-- ===== src/Tools/Cache.antt =====
-- dawn_kestrel/tools/cache.py: `ToolResultCache`. The dictionary is ordered: its first entry is the
-- next to be evicted. Times are in one unit, and clock readings are arguments.
pub mod Room
pub mod Lookups
pub mod History
pub mod Herd
use dawn_kestrel.Prelude.{
  ℕ, zero, suc, ◌+◌, ◌-◌, String, Bool, true, false, not, Option, none, some, List, [], ◌∷◌, ◌++◌,
  Dict, lookup, insert, delete, move_to_end, contains, length, leb, ltb, if◌then◌else◌, string_eq,
  ◌==◌,
}

-- `d or e` and `x or y` for a value that may be `None`
abbrev pub or_default {ℓ} : {A : Type ℓ} → Option A → A → A
or_default none a = a
or_default (some b) a = b

-- `ttl or default`: a zero is as good as none
abbrev pub or_nonzero : Option ℕ → ℕ → ℕ
or_nonzero none d = d
or_nonzero (some zero) d = d
or_nonzero (some (suc n)) d = suc n

-- `s or default` for a set: an empty one is as good as none
abbrev pub or_nonempty {ℓ} : {A : Type ℓ} → Option (List A) → List A → List A
or_nonempty none d = d
or_nonempty (some []) d = d
or_nonempty (some (x ∷ xs)) d = x ∷ xs

pub record CacheStats : Type 0 where
  pub hits : ℕ
  pub misses : ℕ
  pub evictions : ℕ
  pub size : ℕ
  pub max_size : ℕ
  -- numerator and denominator
  pub hit_rate : ℕ × ℕ

-- what a tool gives back: output, title, metadata and attachments
pub record ToolOutput (Value : Type 0) : Type 0 where
  pub output : String
  pub title : String
  pub metadata : Option (Dict String Value)
  pub attachments : Option (List (Dict String Value))

-- `Args` are the arguments of tools, `Value` the values of metadata.
module _ (Args Value : Type 0) where
  pub record CacheEntry : Type 0 where
    pub tool_name : String
    pub tool_args : Args
    pub result_output : String
    pub result_title : String
    pub result_metadata : Dict String Value
    pub result_attachments : Option (List (Dict String Value))
    pub cached_at : ℕ
    pub access_count : ℕ
    pub ttl_seconds : ℕ

  pub record ToolResultCache : Type 0 where
    pub cache : Dict String CacheEntry
    pub max_size : ℕ
    pub default_ttl : ℕ
    pub cacheable_tools : List String
    pub non_cacheable_tools : List String
    pub hits : ℕ
    pub misses : ℕ
    pub evictions : ℕ

unfoldable pub default_cacheable_tools : List String
default_cacheable_tools =
    "read" ∷ "glob" ∷ "grep" ∷ "rg" ∷ "ripgrep" ∷ "ast-grep" ∷ "git" ∷ "file" ∷ "tree" ∷ "ls" ∷ []

unfoldable pub default_non_cacheable_tools : List String
default_non_cacheable_tools =
    "write" ∷ "edit" ∷ "bash" ∷ "shell" ∷ "execute" ∷ "delete" ∷ "move" ∷ "rename" ∷ "patch" ∷ []

module _ {Args Value : Type 0} where
  unfoldable pub new_cache :
      ℕ → ℕ → Option (List String) → Option (List String) → ToolResultCache Args Value
  unfolding default_cacheable_tools default_non_cacheable_tools
  new_cache max_size default_ttl cacheable non_cacheable = record {
    cache = [];
    max_size = max_size;
    default_ttl = default_ttl;
    cacheable_tools = or_nonempty cacheable default_cacheable_tools;
    non_cacheable_tools = or_nonempty non_cacheable default_non_cacheable_tools;
    hits = 0;
    misses = 0;
    evictions = 0;
  }

  unfoldable pub is_cacheable : ToolResultCache Args Value → String → Bool
  is_cacheable c tool_name =
      if contains tool_name c.non_cacheable_tools
      then false
      else contains tool_name c.cacheable_tools

  unfoldable pub evict : String → ToolResultCache Args Value → ToolResultCache Args Value
  evict key c = elim (lookup key c.cache) [
    | none ↦ c
    | some _ ↦ record c { cache = delete key c.cache; evictions = c.evictions + 1 }
  ]

  unfoldable pub evict_oldest : ToolResultCache Args Value → ToolResultCache Args Value
  evict_oldest c = elim c.cache [ [] ↦ c | (oldest_key, _) ∷ _ ↦ evict oldest_key c ]

  -- `while len(self._cache) >= self._max_size`, with fuel; `none` means that it ran out.
  unfoldable pub make_room : ℕ → ToolResultCache Args Value → Option (ToolResultCache Args Value)
  make_room zero c = none
  make_room (suc fuel) c =
      let rest = make_room fuel (evict_oldest c) in
      if leb c.max_size (length c.cache) then rest else some c

  unfoldable pub new_entry :
      ToolResultCache Args Value
      → String
      → Args
      → ToolOutput Value
      → Option ℕ
      → ℕ
      → CacheEntry Args Value
  new_entry c tool_name tool_args out ttl_seconds now = record {
    tool_name = tool_name;
    tool_args = tool_args;
    result_output = out.output;
    result_title = out.title;
    result_metadata = or_default out.metadata [];
    result_attachments = out.attachments;
    cached_at = now;
    access_count = 0;
    ttl_seconds = or_nonzero ttl_seconds c.default_ttl;
  }

  -- room, and the entry under its key: the same lines of `set`, `aset` and `aget_or_execute`
  unfoldable pub store :
      ℕ
      → ToolResultCache Args Value
      → String
      → CacheEntry Args Value
      → Option (ToolResultCache Args Value)
  store fuel c key entry = elim (make_room fuel c) [
    | none ↦ none
    | some roomy ↦ some (record roomy { cache = insert key entry roomy.cache })
  ]

  -- an entry that is too old
  unfoldable pub is_expired : CacheEntry Args Value → ℕ → Bool
  is_expired entry now = ltb entry.ttl_seconds (now - entry.cached_at)

  -- the lines of a hit
  unfoldable pub touch :
      String
      → CacheEntry Args Value
      → ToolResultCache Args Value
      → CacheEntry Args Value × ToolResultCache Args Value
  touch key entry c =
      let used = record entry { access_count = entry.access_count + 1 } in
      (used, record c { cache = move_to_end key used c.cache; hits = c.hits + 1 })

  unfoldable pub miss : ToolResultCache Args Value → ToolResultCache Args Value
  miss c = record c { misses = c.misses + 1 }

  -- the keys of the entries of a tool
  unfoldable pub keys_of : String → Dict String (CacheEntry Args Value) → List String
  keys_of tool_name [] = []
  keys_of tool_name ((k, entry) ∷ d) =
      let keys = keys_of tool_name d in if entry.tool_name == tool_name then k ∷ keys else keys

  unfoldable pub evict_all : List String → ToolResultCache Args Value → ToolResultCache Args Value
  evict_all [] c = c
  evict_all (k ∷ keys) c = evict_all keys (evict k c)

  unfoldable pub invalidate :
      Option String → ToolResultCache Args Value → ℕ × ToolResultCache Args Value
  invalidate none c =
      (length c.cache, record c { cache = []; evictions = c.evictions + length c.cache })
  invalidate (some tool_name) c =
      let keys_to_remove = keys_of tool_name c.cache in
      (length keys_to_remove, evict_all keys_to_remove c)

  -- `while len(self._cache) > new_max_size`, one turn for each entry: an entry goes in each turn
  unfoldable pub shrink :
      Dict String (CacheEntry Args Value)
      → ToolResultCache Args Value
      → ℕ × ToolResultCache Args Value
  shrink [] c = (0, c)
  shrink (_ ∷ turns) c =
      let rest = shrink turns (evict_oldest c) in
      if ltb c.max_size (length c.cache) then (rest.0 + 1, rest.1) else (0, c)

  unfoldable pub resize : ℕ → ToolResultCache Args Value → ℕ × ToolResultCache Args Value
  resize new_max_size c = shrink c.cache (record c { max_size = new_max_size })

  unfoldable pub get_stats : ToolResultCache Args Value → CacheStats
  get_stats c =
      let total = c.hits + c.misses in
      record {
        hits = c.hits;
        misses = c.misses;
        evictions = c.evictions;
        size = length c.cache;
        max_size = c.max_size;
        hit_rate = if ltb 0 total then (c.hits, total) else (0, 1);
      }

-- `make_key` hashes the arguments: a parameter.
module _ {Args Value : Type 0} (make_key : String → Args → String) where
  -- an entry that was looked up
  unfoldable pub answer :
      String
      → ℕ
      → ToolResultCache Args Value
      → Option (CacheEntry Args Value)
      → Option (CacheEntry Args Value) × ToolResultCache Args Value
  unfolding is_expired touch miss
  answer key now c none = (none, miss c)
  answer key now c (some entry) =
      if is_expired entry now
      then (none, miss (evict key c))
      else (some (touch key entry c).0, (touch key entry c).1)

  unfoldable pub get :
      ToolResultCache Args Value
      → String
      → Args
      → ℕ
      → Option (CacheEntry Args Value) × ToolResultCache Args Value
  unfolding answer
  get c tool_name tool_args now =
      let key = make_key tool_name tool_args in
      if is_cacheable c tool_name then answer key now c (lookup key c.cache) else (none, c)

  -- `set`, and `aset` under the lock; `none` means that the fuel ran out.
  unfoldable pub set :
      ℕ
      → ToolResultCache Args Value
      → String
      → Args
      → ToolOutput Value
      → Option ℕ
      → ℕ
      → Option (ToolResultCache Args Value)
  set fuel c tool_name tool_args out ttl_seconds now =
      let key = make_key tool_name tool_args in
      let stored = store fuel c key (new_entry c tool_name tool_args out ttl_seconds now) in
      if is_cacheable c tool_name then stored else some c

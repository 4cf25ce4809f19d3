-- ===== src/Tools/Permissions.antt =====
-- dawn_kestrel/tools/permission_filter.py: the filter of tools. Identifiers and patterns are texts that
-- the code looks into. The metadata of a tool are not empty, as `register` sees to it.
pub mod Patterns
pub mod Filtered
use dawn_kestrel.Prelude.{
  ℕ, zero, suc, Bool, true, false, not, ◌||◌, ◌&&◌, Option, none, some, List, [], ◌∷◌, ◌++◌, map,
  Dict, lookup, insert, contains, add, length, is_empty, if◌then◌else◌, Text, codes, starts_with,
  ends_with, nat_eq, list_eq, nat_beq, get_last?, ◌==◌,
}

-- the text "*"
abbrev pub star : Text
star = codes "*"

-- `s[:-1]` and `s[1:]`
abbrev pub butlast : Text → Text
butlast [] = []
butlast (c ∷ []) = []
butlast (c ∷ d ∷ s) = c ∷ butlast (d ∷ s)

abbrev pub tail : Text → Text
tail [] = []
tail (c ∷ s) = s

unfoldable pub matches_pattern : Text → Text → Bool
matches_pattern needle pattern =
    if pattern == star
    then true
    else if needle == pattern
    then true
    else if ends_with pattern star
    then starts_with needle (butlast pattern)
    else if starts_with pattern star
    then ends_with needle (tail pattern)
    else false

pub record PermissionRule : Type 0 where
  pub permission : Text
  pub pattern : Text
  pub action : Text

-- a rule as the configuration of an agent writes it; a missing key reads as the empty text
pub record RuleDict : Type 0 where
  pub permission : Option Text
  pub pattern : Option Text
  pub action : Option Text

-- `d.get(key, "")`
abbrev pub or_empty : Option Text → Text
or_empty none = []
or_empty (some s) = s

-- `Tool` and `Metadata` are what a registry keeps under an identifier.
pub record ToolRegistry (Tool Metadata : Type 0) : Type 0 where
  pub tools : Dict Text Tool
  pub tool_metadata : Dict Text Metadata

pub record ToolPermissionFilter (Tool Metadata : Type 0) : Type 0 where
  pub rules : List PermissionRule
  pub tool_registry : Option (ToolRegistry Tool Metadata)
  pub allowed_tools : Option (List Text)
  pub denied_tools : Option (List Text)

unfoldable pub parse_permissions : List RuleDict → List PermissionRule
parse_permissions [] = []
parse_permissions (d ∷ ds) =
    let rest = parse_permissions ds in
    if is_empty (or_empty d.permission) || is_empty (or_empty d.action)
    then rest
    else record {
      permission = or_empty d.permission;
      pattern = or_empty d.pattern;
      action = or_empty d.action;
    }
      ∷ rest

-- the first list that is given
abbrev pub first_given {ℓ} : {A : Type ℓ} → Option A → Option A → Option A
first_given none other = other
first_given (some a) other = some a

-- the loop of `_evaluate_permission`
unfoldable pub last_action : List PermissionRule → Text → Option Text → Option Text
last_action [] tool_id last = last
last_action (rule ∷ rules) tool_id last =
    last_action rules tool_id
      (if matches_pattern tool_id rule.permission then some rule.action else last)

unfoldable pub matches_tool_list : Text → List Text → Bool
matches_tool_list tool_id [] = false
matches_tool_list tool_id (p ∷ patterns) =
    matches_pattern tool_id p || matches_tool_list tool_id patterns

-- a list that may be missing
unfoldable pub is_listed : Option (List Text) → Text → Bool
is_listed none tool_id = false
is_listed (some patterns) tool_id = matches_tool_list tool_id patterns

abbrev pub is_allow : Option Text → Bool
is_allow none = false
is_allow (some action) = action == codes "allow"

module _ {Tool Metadata : Type 0} where
  unfoldable pub new_filter :
      Option (List RuleDict)
      → Option (ToolRegistry Tool Metadata)
      → Option (List Text)
      → Option (List Text)
      → Option (List Text)
      → Option (List Text)
      → ToolPermissionFilter Tool Metadata
  new_filter permissions registry allowed_tools denied_tools allowlist denylist = record {
    rules = elim permissions [ none ↦ [] | some l ↦ parse_permissions l ];
    tool_registry = registry;
    allowed_tools = first_given allowed_tools allowlist;
    denied_tools = first_given denied_tools denylist;
  }

  unfoldable pub evaluate_permission : ToolPermissionFilter Tool Metadata → Text → Option Text
  unfolding last_action
  evaluate_permission f tool_id = last_action f.rules tool_id none

  unfoldable pub is_tool_allowed : ToolPermissionFilter Tool Metadata → Text → Bool
  is_tool_allowed f tool_id =
      if is_listed f.denied_tools tool_id
      then false
      else if is_listed f.allowed_tools tool_id
      then true
      else is_allow (evaluate_permission f tool_id)

  -- the loop of `get_filtered_tool_ids`
  unfoldable pub collect : ToolPermissionFilter Tool Metadata → List Text → List Text → List Text
  collect f [] allowed = allowed
  collect f (tool_id ∷ ids) allowed = collect f ids (
      if is_listed f.denied_tools tool_id
      then allowed
      else if is_listed f.allowed_tools tool_id
      then add tool_id allowed
      else if is_allow (evaluate_permission f tool_id)
      then add tool_id allowed
      else allowed)

  -- `set(registry.tools.keys())`
  unfoldable pub registry_ids : Option (ToolRegistry Tool Metadata) → List Text
  registry_ids none = []
  registry_ids (some r) = map (λ p. p.0) r.tools

  unfoldable pub get_filtered_tool_ids :
      ToolPermissionFilter Tool Metadata → Option (List Text) → List Text
  get_filtered_tool_ids f none = collect f (registry_ids f.tool_registry) []
  get_filtered_tool_ids f (some tool_ids) = collect f tool_ids []

  -- one turn of the loop of `get_filtered_registry`
  unfoldable pub copy_tool :
      ToolRegistry Tool Metadata → Text → ToolRegistry Tool Metadata → ToolRegistry Tool Metadata
  copy_tool r tool_id filtered = elim (lookup tool_id r.tools) [
    | none ↦ filtered
    | some tool ↦ elim (lookup tool_id r.tool_metadata) [
      | none ↦ record filtered { tools = insert tool_id tool filtered.tools }
      | some m ↦ record {
        tools = insert tool_id tool filtered.tools;
        tool_metadata = insert tool_id m filtered.tool_metadata;
      }
    ]
  ]

  unfoldable pub copy_tools :
      ToolRegistry Tool Metadata
      → List Text
      → ToolRegistry Tool Metadata
      → ToolRegistry Tool Metadata
  copy_tools r [] filtered = filtered
  copy_tools r (tool_id ∷ ids) filtered = copy_tools r ids (copy_tool r tool_id filtered)

  unfoldable pub get_filtered_registry :
      ToolPermissionFilter Tool Metadata → Option (ToolRegistry Tool Metadata)
  get_filtered_registry f = elim f.tool_registry [
    | none ↦ none
    | some r ↦
        some
          (copy_tools r (get_filtered_tool_ids f none) (record { tools = []; tool_metadata = [] }))
  ]

-- ===== src/Tests/Permission.antt =====
-- dawn_kestrel/tools/permission_filter.py and dawn_kestrel/permissions/evaluate.py
use dawn_kestrel.Prelude.{
  ℕ, ◌≡◌, refl, ◌↔◌, true, false, none, some, [], ◌∷◌, lookup, if◌then◌else◌, Text, codes, insert,
  contains, add, list_eq, nat_eq,
}
use dawn_kestrel.Tools.Permissions.{
  RuleDict, ToolRegistry, ToolPermissionFilter, new_filter, is_tool_allowed, get_filtered_registry,
  matches_pattern, copy_tools, get_filtered_tool_ids, collect, registry_ids, is_listed,
  matches_tool_list, evaluate_permission, parse_permissions, copy_tool,
}
use dawn_kestrel.Tools.Permissions.Patterns.{Matches, matches_pattern-Matches}
use dawn_kestrel.Tools.Permissions.Filtered.{lookup-get_filtered_registry}
use dawn_kestrel.Tools.Rulesets.{ask, evaluate, get_default_rulesets, default_rules, rule_for}
use dawn_kestrel.Tools.Rulesets.Equality.{last_equal, or_ask, all_rules, evaluate-last_equal}

matches_pattern-Matches_example :
    (matches_pattern (codes "file_write") (codes "*write*") ≡ true)
    ↔ Matches (codes "file_write") (codes "*write*")
matches_pattern-Matches_example = matches_pattern-Matches (codes "file_write") (codes "*write*")

-- a star on both sides is read as one at the end only
star_on_both_sides : matches_pattern (codes "file_write") (codes "*write*") ≡ false
unfolding matches_pattern
star_on_both_sides = refl

abbrev rule : Text → Text → RuleDict
rule permission action = record {
  permission = some permission;
  pattern = some (codes "*");
  action = some action;
}

abbrev registry : ToolRegistry ℕ ℕ
registry = record {
  tools = (codes "read", 1) ∷ (codes "bash", 2) ∷ (codes "web_fetch", 3) ∷ [];
  tool_metadata = (codes "read", 10) ∷ [];
}

-- everything but the tools of the web; bash is denied by the list
abbrev filter : ToolPermissionFilter ℕ ℕ
filter =
    new_filter (some (rule (codes "*") (codes "allow") ∷ rule (codes "web_*") (codes "deny") ∷ []))
      (some registry) none (some (codes "bash" ∷ [])) none none

abbrev only_read : ToolRegistry ℕ ℕ
only_read = record { tools = (codes "read", 1) ∷ []; tool_metadata = (codes "read", 10) ∷ [] }

lookup-get_filtered_registry_example : lookup (codes "web_fetch") only_read.tools ≡ (
    if is_tool_allowed filter (codes "web_fetch")
    then lookup (codes "web_fetch") registry.tools
    else none)
unfolding new_filter get_filtered_registry copy_tools get_filtered_tool_ids collect registry_ids
    is_listed matches_tool_list matches_pattern evaluate_permission parse_permissions add contains
    copy_tool lookup insert
lookup-get_filtered_registry_example =
    lookup-get_filtered_registry filter registry only_read (codes "web_fetch") refl refl

evaluate-last_equal_example :
    evaluate (codes "bash") (codes "ls") get_default_rulesets
    ≡ or_ask (last_equal (codes "bash") (codes "ls") (all_rules get_default_rulesets) none)
evaluate-last_equal_example = evaluate-last_equal (codes "bash") (codes "ls") get_default_rulesets

-- the star of the defaults matches no other text
asks_for_all : (evaluate (codes "bash") (codes "ls") get_default_rulesets).action ≡ ask
unfolding evaluate get_default_rulesets default_rules rule_for
asks_for_all = refl

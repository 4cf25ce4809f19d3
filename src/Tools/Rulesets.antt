-- ===== src/Tools/Rulesets.antt =====
-- dawn_kestrel/permissions/evaluate.py: permissions under several rulesets.
pub mod Equality
use mathlib.Core.List.{reverse}
use dawn_kestrel.Prelude.{
  ℕ, Bool, true, false, not, ◌||◌, ◌&&◌, Option, none, some, List, [], ◌∷◌, if◌then◌else◌, Text,
  codes, nat_eq, nat_beq, list_eq, ◌==◌,
}

pub data Action : Type 0 where
  allow deny ask : Action

pub record PermissionRule : Type 0 where
  pub permission : Text
  pub pattern : Text
  pub action : Action

abbrev pub asterisk : Text
asterisk = codes "*"

-- a character before the first of the parts
abbrev pub onto_first : ℕ → List Text → List Text
onto_first c [] = (c ∷ []) ∷ []
onto_first c (w ∷ ws) = (c ∷ w) ∷ ws

-- `s.split("*")`
unfoldable pub split : Text → List Text
split [] = [] ∷ []
split (c ∷ s) = let parts = split s in if nat_beq c b'*' then [] ∷ parts else onto_first c parts

-- the loop over `zip(pattern_parts, needle_parts)`
unfoldable pub parts_match : List Text → List Text → Bool
parts_match [] needle_parts = true
parts_match (p ∷ ps) [] = true
parts_match (p ∷ ps) (n ∷ ns) =
    if not (p == asterisk) && not (p == n) then false else parts_match ps ns

-- `len(pattern_parts) == len(needle_parts)`
unfoldable pub same_length : List Text → List Text → Bool
same_length [] [] = true
same_length (p ∷ ps) (n ∷ ns) = same_length ps ns
same_length _ _ = false

unfoldable pub matches_pattern : Text → Text → Bool
unfolding split parts_match same_length
matches_pattern needle pattern =
    if not (same_length (split pattern) (split needle))
    then false
    else parts_match (split pattern) (split needle)

-- the inner loop, and the loop over the rulesets
unfoldable pub first_match : Text → Text → List PermissionRule → Option PermissionRule
unfolding matches_pattern
first_match permission pattern [] = none
first_match permission pattern (rule ∷ rules) =
    if matches_pattern permission rule.permission && matches_pattern pattern rule.pattern
    then some rule
    else first_match permission pattern rules

unfoldable pub search_rulesets : Text → Text → List (List PermissionRule) → PermissionRule
unfolding first_match
search_rulesets permission pattern [] = record {
  permission = asterisk;
  pattern = asterisk;
  action = ask;
}
search_rulesets permission pattern (rules ∷ rulesets) =
    let rest = search_rulesets permission pattern rulesets in
    elim (first_match permission pattern (reverse rules)) [ none ↦ rest | some rule ↦ rule ]

unfoldable pub evaluate : Text → Text → List (List PermissionRule) → PermissionRule
unfolding search_rulesets
evaluate permission pattern rulesets = search_rulesets permission pattern (reverse rulesets)

unfoldable pub rule_for : Text → Action → PermissionRule
rule_for permission action = record { permission = permission; pattern = asterisk; action = action }

unfoldable pub default_rules : List PermissionRule
unfolding rule_for
default_rules =
    rule_for asterisk allow
    ∷ rule_for (codes "doom_loop") ask
    ∷ rule_for (codes "external_directory") ask
    ∷ rule_for (codes "question") deny
    ∷ rule_for (codes "plan_enter") deny
    ∷ rule_for (codes "plan_exit") deny
    ∷ []

unfoldable pub get_default_rulesets : List (List PermissionRule)
get_default_rulesets = default_rules ∷ []

-- ===== src/Tools/Permissions/Filtered.antt =====
-- What permission_filter.py lets through: the sets of tools and the single decisions agree, and the
-- last rule that matches decides.
use dawn_kestrel.Prelude.{
  ◌≡◌, refl, ◌∙◌, inl, inr, Bool, true, false, ◌||◌, ◌&&◌, Option, none, some, List, [], ◌∷◌, ◌++◌,
  map, if◌then◌else◌, Bool-cases, Option-cases, Text, list_eq, nat_eq, ◌==◌, Dict, lookup,
  lookup-insert, contains, add, contains-add, list_beq_iff, All, arith,
}
use dawn_kestrel.Tools.Permissions.{
  PermissionRule, ToolRegistry, ToolPermissionFilter, matches_pattern, last_action,
  evaluate_permission, is_listed, is_allow, is_tool_allowed, collect, registry_ids,
  get_filtered_tool_ids, copy_tool, copy_tools, get_filtered_registry,
}

last_action-append :
    (front back : List PermissionRule) (tool_id : Text) (last : Option Text)
    → last_action (front ++ back) tool_id last
      ≡ last_action back tool_id (last_action front tool_id last)
unfolding last_action
last_action-append [] back tool_id last = refl
last_action-append (rule ∷ front) back tool_id last = last_action-append front back tool_id _

none_matches :
    (rules : List PermissionRule) (tool_id : Text) (last : Option Text)
    → All (λ r. matches_pattern tool_id r.permission ≡ false) rules
    → last_action rules tool_id last ≡ last
unfolding last_action
none_matches [] tool_id last h = refl
none_matches (rule ∷ rules) tool_id last (first, h) = rw first (none_matches rules tool_id last h)

module _ {Tool : Type 0} where
  abbrev is_some : Option Tool → Bool
  is_some none = false
  is_some (some tool) = true

  contains-registry_ids :
      (t : Text) (tools : Dict Text Tool)
      → contains t (map (λ p. p.0) tools) ≡ is_some (lookup t tools)
  unfolding contains lookup
  contains-registry_ids t [] = refl
  contains-registry_ids t ((k, tool) ∷ tools) = ground (arith, contains-registry_ids t tools)

  -- the first that is there
  abbrev or_else : Option Tool → Option Tool → Option Tool
  or_else none other = other
  or_else (some tool) other = some tool

  allowed_entry :
      (listed allowed : Bool) (o : Option Tool)
      → listed ≡ (is_some o && allowed)
      → (if listed then or_else o none else none) ≡ (if allowed then o else none)
  allowed_entry listed allowed none h = ground arith
  allowed_entry listed allowed (some tool) h = ground arith

module _ {Tool Metadata : Type 0} where
  -- The last rule whose pattern matches decides, whatever the rules before it say; where no rule
  -- matches, there is no decision.
  pub evaluate_permission_last :
      (f : ToolPermissionFilter Tool Metadata) (front back : List PermissionRule)
      (rule : PermissionRule) (tool_id : Text)
      → f.rules ≡ front ++ rule ∷ back
      → All (λ r. matches_pattern tool_id r.permission ≡ false) back
      → evaluate_permission f tool_id ≡ (
          if matches_pattern tool_id rule.permission
          then some rule.action
          else last_action front tool_id none)
  unfolding evaluate_permission last_action
  evaluate_permission_last f front back rule tool_id split h =
      rw split (last_action-append front (rule ∷ back) tool_id none ∙ none_matches back tool_id _ h)

  same_decision :
      (f : ToolPermissionFilter Tool Metadata) (i : Text) (allowed : List Text)
      → (if is_listed f.denied_tools i
          then allowed
          else if is_listed f.allowed_tools i
          then add i allowed
          else if is_allow (evaluate_permission f i)
          then add i allowed
          else allowed)
        ≡ (if is_tool_allowed f i then add i allowed else allowed)
  unfolding is_tool_allowed
  same_decision f i allowed = ground arith

  contains-collect :
      (f : ToolPermissionFilter Tool Metadata) (t : Text) (ids allowed : List Text)
      → contains t (collect f ids allowed)
        ≡ (contains t allowed || (contains t ids && is_tool_allowed f t))
  unfolding collect contains
  contains-collect f t [] allowed = ground arith
  contains-collect f t (i ∷ ids) allowed =
      rw (same_decision f i allowed) (elim (Bool-cases (is_tool_allowed f i)) [
        | inl yes_i ↦ rw yes_i (
            ground (
              arith,
              contains-collect f t ids (add i allowed),
              contains-add i t allowed,
              list_beq_iff i t,
              yes_i,
            ))
        | inr no_i ↦
            rw no_i (ground (arith, contains-collect f t ids allowed, list_beq_iff i t, no_i))
      ])

  -- Filtering a set of tools keeps exactly those of its tools that are allowed one by one.
  pub contains-get_filtered_tool_ids :
      (f : ToolPermissionFilter Tool Metadata) (tool_ids : List Text) (tool_id : Text)
      → contains tool_id (get_filtered_tool_ids f (some tool_ids))
        ≡ (contains tool_id tool_ids && is_tool_allowed f tool_id)
  unfolding get_filtered_tool_ids contains
  contains-get_filtered_tool_ids f tool_ids tool_id = contains-collect f tool_id tool_ids []

  lookup-copy_tool :
      (r filtered : ToolRegistry Tool Metadata) (t i : Text)
      → lookup t (copy_tool r i filtered).tools ≡ (
          if i == t
          then or_else (lookup t r.tools) (lookup t filtered.tools)
          else lookup t filtered.tools)
  unfolding copy_tool
  lookup-copy_tool r filtered t i = elim (Option-cases (lookup i r.tools)) [
    | inl absent ↦ rw (absent, copy_tool) (ground (arith, absent, list_beq_iff i t))
    | inr (tool, found) ↦
        let written = lookup-insert i t tool filtered.tools in
        elim (Option-cases (lookup i r.tool_metadata)) [
          | inl bare ↦ ground (arith, found, bare, written, list_beq_iff i t)
          | inr (m, described) ↦ ground (arith, found, described, written, list_beq_iff i t)
        ]
  ]

  lookup-copy_tools :
      (r : ToolRegistry Tool Metadata) (t : Text) (ids : List Text)
      (filtered : ToolRegistry Tool Metadata)
      → lookup t (copy_tools r ids filtered).tools ≡ (
          if contains t ids
          then or_else (lookup t r.tools) (lookup t filtered.tools)
          else lookup t filtered.tools)
  unfolding copy_tools contains
  lookup-copy_tools r t [] filtered = refl
  lookup-copy_tools r t (i ∷ ids) filtered =
      ground
        (arith, lookup-copy_tools r t ids (copy_tool r i filtered), lookup-copy_tool r filtered t i)

  -- The filtered registry has, under each identifier that is allowed, the tool of the registry, and
  -- nothing under all others.
  pub lookup-get_filtered_registry :
      (f : ToolPermissionFilter Tool Metadata) (r : ToolRegistry Tool Metadata)
      (filtered : ToolRegistry Tool Metadata) (tool_id : Text)
      → f.tool_registry ≡ some r
      → get_filtered_registry f ≡ some filtered
      → lookup tool_id filtered.tools
        ≡ (if is_tool_allowed f tool_id then lookup tool_id r.tools else none)
  unfolding get_filtered_registry get_filtered_tool_ids registry_ids lookup contains
  lookup-get_filtered_registry f r filtered tool_id h e =
      let ids = collect f (registry_ids f.tool_registry) [] in
      let start : ToolRegistry Tool Metadata = record { tools = []; tool_metadata = [] } in
      let same : copy_tools r ids start ≡ filtered = cc (h, e) in
      let known = contains-registry_ids tool_id r.tools in
      let listed : contains tool_id ids
          ≡ (is_some (lookup tool_id r.tools) && is_tool_allowed f tool_id) =
        contains-collect f tool_id (registry_ids f.tool_registry) []
        ∙ rw (h, registry_ids) (rw known refl) in
      rw (← same) (
        lookup-copy_tools r tool_id ids start
        ∙ allowed_entry _ (is_tool_allowed f tool_id) (lookup tool_id r.tools) listed)

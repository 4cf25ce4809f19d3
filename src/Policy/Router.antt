-- ===== src/Policy/Router.antt =====
-- dawn_kestrel/policy/router_policy.py with the policies of plan_execute_policy.py, react_policy.py,
-- fsm_bridge.py and engine.py between which it chooses. None of them raises, so the fallback of
-- `propose` is never taken. Quotients of counts are compared by multiplying out: `1.0 - 0.8` is a float
-- just below 0.2, so that a headroom of exactly one fifth is above it.
pub mod Choice
pub mod Harmless
use dawn_kestrel.Prelude.{
  ℕ, zero, suc, ◌+◌, ◌-◌, ◌*◌, Bool, true, false, not, ◌||◌, ◌&&◌, Option, none, some, List, [],
  ◌∷◌, ◌++◌, length, ltb, leb, is_empty, if◌then◌else◌, Text, codes, list_eq, nat_eq, ◌==◌,
}
use dawn_kestrel.Policy.{
  RiskLevel, TodoItem, TodoStatus, Constraint, PolicyInput, StepProposal, any,
}
use dawn_kestrel.Policy.Todos.{is_pending, get_first_pending_todo}
use dawn_kestrel.Policy.Rules.{minimal, priority_text, is_hard}
use dawn_kestrel.Policy.Rules as Rules
use dawn_kestrel.Policy.Words.{lower, is_infix}

pub data PolicyEngine : Type 0 where
  rules react plan_execute fsm : PolicyEngine

unfoldable pub no_action_proposal : StepProposal
unfolding minimal
no_action_proposal = minimal (codes "No action proposed") [] []

unfoldable pub fsm_proposal : StepProposal
unfolding minimal
fsm_proposal = minimal (codes "FSM-based action (not yet wired)") [] []

unfoldable pub plan_for : Option TodoItem → StepProposal
unfolding minimal priority_text
plan_for none =
    minimal (codes "No pending TODOs - awaiting plan generation") []
      (codes "No pending TODOs available. Plan generation will be added in future iteration.")
plan_for (some t) = minimal (codes "Execute TODO: " ++ t.description) (t.id ∷ []) (
    codes "Minimal proposal targeting TODO '"
    ++ (t.id ++ (codes "' (priority: " ++ (priority_text t.priority ++ codes ")"))))

-- `policy.propose(input)`
unfoldable pub propose_by : PolicyEngine → PolicyInput → StepProposal
unfolding no_action_proposal fsm_proposal plan_for
propose_by rules input = Rules.propose input
propose_by react input = no_action_proposal
propose_by plan_execute input = plan_for (get_first_pending_todo input.active_todos)
propose_by fsm input = fsm_proposal

unfoldable pub get_policy_by_name : Text → PolicyEngine
get_policy_by_name mode =
    let name = lower mode in
    if name == codes "rules"
    then rules
    else if name == codes "react"
    then react
    else if name == codes "plan_execute"
    then plan_execute
    else if name == codes "fsm"
    then fsm
    else rules

-- `headroom <= 1.0 - 0.8`, where the headroom is 1 for a maximum of 0
unfoldable pub is_under_pressure : PolicyInput → Bool
is_under_pressure input =
    let maximum = input.budgets.max_iterations in
    let remaining = maximum - input.budgets.iterations_consumed in
    if leb maximum 0 then false else ltb (remaining * 5) maximum

-- `sum(1 for ...)`
unfoldable pub count_if {ℓ} : {A : Type ℓ} → (A → Bool) → List A → ℕ
count_if p [] = 0
count_if p (x ∷ xs) = let rest = count_if p xs in if p x then suc rest else rest

-- `hard / total > 0.0`
unfoldable pub is_strict : PolicyInput → Bool
unfolding count_if
is_strict input =
    if is_empty input.constraints
    then false
    else ltb 0 (count_if (λ c. is_hard c.severity) input.constraints)

abbrev pub is_incomplete : TodoStatus → Bool
is_incomplete TodoStatus.pending = true
is_incomplete TodoStatus.in_progress = true
is_incomplete TodoStatus.blocked = true
is_incomplete _ = false

-- `ambiguity >= 1.0`
unfoldable pub is_ambiguous : PolicyInput → Bool
unfolding count_if
is_ambiguous input =
    let todos = input.active_todos in
    let incomplete = count_if (λ t. is_incomplete t.status) todos in
    let pending = count_if (λ t. is_pending t.status) todos in
    if is_empty todos
    then false
    else if leb incomplete 0
    then false
    else if ltb 3 incomplete && leb pending 0
    then true
    else leb (length todos) incomplete

unfoldable pub keywords : List Text
keywords =
    codes "edit"
    ∷ codes "modify"
    ∷ codes "refactor"
    ∷ codes "rename"
    ∷ codes "delete"
    ∷ codes "remove"
    ∷ codes "move"
    ∷ codes "update"
    ∷ codes "write"
    ∷ codes "create"
    ∷ codes "add"
    ∷ codes "implement"
    ∷ codes "fix"
    ∷ codes "test"
    ∷ codes "build"
    ∷ codes "lint"
    ∷ codes "format"
    ∷ []

abbrev pub is_relevant : TodoStatus → Bool
is_relevant TodoStatus.pending = true
is_relevant TodoStatus.in_progress = true
is_relevant _ = false

unfoldable pub mentions_work : TodoItem → Bool
unfolding keywords
mentions_work t = any (λ k. is_infix k (lower t.description)) keywords

-- `intensity >= 0.5`
unfoldable pub is_tool_intensive : PolicyInput → Bool
unfolding count_if mentions_work
is_tool_intensive input =
    let relevant = count_if (λ t. is_relevant t.status) input.active_todos in
    let matches = count_if (λ t. is_relevant t.status && mentions_work t) input.active_todos in
    if leb relevant 0 then false else leb relevant (matches * 2)

-- `policy_mode` is the environment variable; an empty one is as good as none
unfoldable pub select_policy : Option Text → PolicyInput → PolicyEngine
unfolding get_policy_by_name is_under_pressure is_strict is_ambiguous is_tool_intensive
select_policy (some (c ∷ mode)) input = get_policy_by_name (c ∷ mode)
select_policy _ input =
    if is_under_pressure input
    then rules
    else if is_strict input
    then rules
    else if is_ambiguous input
    then react
    else if is_tool_intensive input
    then plan_execute
    else rules

unfoldable pub propose : Option Text → PolicyInput → StepProposal
unfolding select_policy propose_by
propose policy_mode input = propose_by (select_policy policy_mode input) input

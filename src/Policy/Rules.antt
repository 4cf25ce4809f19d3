-- ===== src/Policy/Rules.antt =====
-- dawn_kestrel/policy/rules_policy.py: `RulesPolicy`. A quotient of counts is compared with 0.9 by
-- multiplying out, which agrees with the floats for counts below 10^15.
pub mod Targets
use dawn_kestrel.Prelude.{
  ℕ, ◌*◌, Bool, true, false, ◌||◌, ◌&&◌, Option, none, some, List, [], ◌∷◌, ◌++◌, ltb, leb,
  if◌then◌else◌, Text, codes,
}
use dawn_kestrel.Policy.{
  RiskLevel, Action, TodoItem, Priority, BudgetInfo, Constraint, Severity, PolicyInput,
  StepProposal, any,
}
use dawn_kestrel.Policy.Todos.{get_first_pending_todo}

unfoldable pub is_budget_exhausted : BudgetInfo → Bool
is_budget_exhausted b =
    leb b.max_iterations b.iterations_consumed
    || leb b.max_tool_calls b.tool_calls_consumed
    || leb b.max_wall_time_seconds b.wall_time_consumed
    || leb b.max_subagent_calls b.subagent_calls_consumed

-- `max > 0` and `consumed / max >= 0.9`
unfoldable pub is_critical : ℕ → ℕ → Bool
is_critical consumed maximum = ltb 0 maximum && leb (maximum * 9) (consumed * 10)

unfoldable pub is_budget_critical : BudgetInfo → Bool
unfolding is_critical
is_budget_critical b =
    if is_critical b.iterations_consumed b.max_iterations
    then true
    else if is_critical b.tool_calls_consumed b.max_tool_calls
    then true
    else if is_critical b.wall_time_consumed b.max_wall_time_seconds
    then true
    else is_critical b.subagent_calls_consumed b.max_subagent_calls

abbrev pub is_hard : Severity → Bool
is_hard Severity.hard = true
is_hard Severity.soft = false

unfoldable pub has_hard_constraints : List Constraint → Bool
has_hard_constraints l = any (λ c. is_hard c.severity) l

unfoldable pub is_high_risk_situation : PolicyInput → Bool
unfolding has_hard_constraints is_budget_critical
is_high_risk_situation input =
    has_hard_constraints input.constraints || is_budget_critical input.budgets

-- a proposal with no context, no actions and no claims, at low risk
unfoldable pub minimal : Text → List Text → Text → StepProposal
minimal intent target_todo_ids notes = record {
  intent = intent;
  target_todo_ids = target_todo_ids;
  requested_context = [];
  actions = [];
  completion_claims = [];
  risk_level = RiskLevel.low;
  notes = notes;
}

unfoldable pub budget_exhausted_proposal : StepProposal
unfolding minimal
budget_exhausted_proposal =
    minimal (codes "Budget exhausted - no further actions possible") []
      (codes "All available budget has been consumed. Cannot propose further actions.")

-- `" and ".join(reasons)`, or the text for no reasons
unfoldable pub reason_text : Bool → Bool → Text
reason_text true true = codes "hard constraints are active and budget is critically low"
reason_text true false = codes "hard constraints are active"
reason_text false true = codes "budget is critically low"
reason_text false false = codes "high-risk conditions detected"

unfoldable pub approval_request_proposal : PolicyInput → StepProposal
unfolding reason_text has_hard_constraints is_budget_critical
approval_request_proposal input =
    let reasons =
      reason_text (has_hard_constraints input.constraints) (is_budget_critical input.budgets) in
    record {
      intent = codes "Request approval due to: " ++ reasons;
      target_todo_ids = [];
      requested_context = [];
      actions =
          Action.request_approval (record {
            message =
                codes "Approval required before proceeding: "
                ++ (reasons ++ (codes ". Goal: " ++ input.goal));
            options = codes "approve" ∷ codes "reject" ∷ codes "modify" ∷ [];
            timeout_seconds = none;
          })
          ∷ [];
      completion_claims = [];
      risk_level = RiskLevel.high;
      notes = codes "High-risk situation detected. Human approval required.";
    }

unfoldable pub priority_text : Priority → Text
priority_text Priority.high = codes "high"
priority_text Priority.medium = codes "medium"
priority_text Priority.low = codes "low"

unfoldable pub for_pending : Option TodoItem → StepProposal
unfolding minimal priority_text
for_pending none =
    minimal (codes "No pending TODOs to address") []
      (codes "All TODOs are completed or no TODOs defined.")
for_pending (some t) = minimal (codes "Address TODO: " ++ t.description) (t.id ∷ []) (
    codes "Minimal proposal targeting first pending TODO (priority: "
    ++ (priority_text t.priority ++ codes ")"))

unfoldable pub default_proposal : PolicyInput → StepProposal
unfolding for_pending
default_proposal input = for_pending (get_first_pending_todo input.active_todos)

unfoldable pub propose : PolicyInput → StepProposal
unfolding is_budget_exhausted is_high_risk_situation budget_exhausted_proposal
    approval_request_proposal default_proposal
propose input =
    if is_budget_exhausted input.budgets
    then budget_exhausted_proposal
    else if is_high_risk_situation input
    then approval_request_proposal input
    else default_proposal input

-- ===== src/Tests/Policies.antt =====
-- dawn_kestrel/policy
use dawn_kestrel.Prelude.{
  ℕ, ◌≡◌, ◌⊎◌, refl, true, false, none, some, List, [], ◌∷◌, Text, codes, All,
}
use dawn_kestrel.Policy.{
  TodoItem, TodoStatus, Priority, BudgetInfo, Severity, PolicyInput, StepProposal, RiskLevel,
  EvidenceType,
}
use dawn_kestrel.Policy.Todos.{get_first_pending_todo}
use dawn_kestrel.Policy.Todos.First.{IsFirst}
use dawn_kestrel.Policy.Rules as Rules
use dawn_kestrel.Policy.Rules.Targets.{HasBudget, propose_targets}
use dawn_kestrel.Policy.Validator.{validate}
use dawn_kestrel.Policy.Gate.{enforce, budget_exhausted, verify_before_done}
use dawn_kestrel.Policy.Words.{strip, lower, is_space, is_infix}
use dawn_kestrel.Policy.Gate.Accepts.{Verdict, enforce-Verdict}
use dawn_kestrel.Policy.Router.{plan_execute, react, propose, select_policy, is_under_pressure}
use dawn_kestrel.Policy.Router.Choice.{Reason, select_policy-Reason}
use dawn_kestrel.Policy.Router.Harmless.{propose_passes}

abbrev todo : Text → TodoStatus → Priority → TodoItem
todo id status priority = record {
  id = id;
  description = codes "Write the report";
  status = status;
  priority = priority;
  dependencies = [];
}

abbrev todos : List TodoItem
todos =
    todo (codes "a") TodoStatus.completed Priority.high
    ∷ todo (codes "b") TodoStatus.pending Priority.low
    ∷ todo (codes "c") TodoStatus.pending Priority.high
    ∷ todo (codes "d") TodoStatus.pending Priority.high
    ∷ []

abbrev budgets : ℕ → BudgetInfo
budgets consumed = record {
  max_iterations = 10;
  max_tool_calls = 100;
  max_wall_time_seconds = 600;
  max_subagent_calls = 20;
  iterations_consumed = consumed;
  tool_calls_consumed = 1;
  wall_time_consumed = 30;
  subagent_calls_consumed = 0;
}

abbrev input : ℕ → PolicyInput
input consumed = record {
  goal = codes "Report";
  active_todos = todos;
  last_events = [];
  granted_context = [];
  budgets = budgets consumed;
  constraints = [];
}

propose_targets_example :
    ((t : TodoItem) × (codes "c" ≡ t.id) × ((◌≡◌ {A = List Text} [] [])) × IsFirst t todos)
    × ((Rules.propose (input 3)).actions ≡ [])
    × All (λ c. c.severity ≡ Severity.soft) (input 3).constraints
    × HasBudget (budgets 3)
unfolding Rules.propose get_first_pending_todo
propose_targets_example = propose_targets (input 3) (codes "c") [] refl

-- completion claimed on inference only
abbrev claim : StepProposal
claim = record {
  intent = codes "Finish";
  target_todo_ids = codes "c" ∷ [];
  requested_context = [];
  actions = [];
  completion_claims =
      record {
        todo_id = codes "c";
        evidence_type = EvidenceType.inference;
        evidence_summary = codes "looks done";
        evidence_refs = [];
        confidence = (1, 1);
        verification_hints = [];
      }
      ∷ [];
  risk_level = RiskLevel.low;
  notes = codes "All done";
}

enforce-Verdict_example : Verdict claim (enforce claim)
enforce-Verdict_example = enforce-Verdict claim

refuses_the_claim : (enforce claim).valid ≡ false
unfolding enforce budget_exhausted strip lower is_space is_infix verify_before_done
refuses_the_claim = refl

select_policy-Reason_example : Reason (select_policy none (input 9)) (input 9)
select_policy-Reason_example = select_policy-Reason (input 9)

-- four fifths are consumed: no pressure yet
at_four_fifths : is_under_pressure (input 8) ≡ false
unfolding is_under_pressure
at_four_fifths = refl

-- all are open: ambiguous, even if it is a single one
one_open :
    select_policy none
      (record (input 0) { active_todos = todo (codes "b") TodoStatus.pending Priority.low ∷ [] })
    ≡ react
unfolding select_policy
one_open = refl

propose_passes_example :
    ((validate (propose (some (codes "RULES")) (input 10))).valid ≡ true)
    × ((select_policy (some (codes "RULES")) (input 10) ≡ plan_execute)
        ⊎ ((enforce (propose (some (codes "RULES")) (input 10))).valid ≡ true))
propose_passes_example = propose_passes (some (codes "RULES")) (input 10)

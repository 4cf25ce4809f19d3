-- ===== src/Core/Fsm/Workflow.antt =====
-- dawn_kestrel/core/fsm.py, the workflow constants and class `WorkflowFSMBuilder`. Wall time is
-- counted in whole units of time, so that its sums are exact; the digest that
-- `compute_novelty_signature` takes of its JSON text is a parameter.
pub mod Graph
pub mod Novelty
use dawn_kestrel.Prelude.{
  ℕ, ◌+◌, String, Bool, true, false, List, [], ◌∷◌, ◌++◌, Dict, contains, add, ◌||◌, leb, length,
  if◌then◌else◌, string_eq,
}
use dawn_kestrel.Core.Fsm.Builder.{FsmBuilder, new, with_initial_state, with_state, with_transition}

abbrev pub workflow_states : List String
workflow_states = "intake" ∷ "plan" ∷ "reason" ∷ "act" ∷ "synthesize" ∷ "check" ∷ "done" ∷ []

abbrev pub workflow_transitions : Dict String (List String)
workflow_transitions =
    ("intake", "plan" ∷ "reason" ∷ [])
    ∷ ("plan", "act" ∷ "reason" ∷ [])
    ∷ ("reason", "act" ∷ "synthesize" ∷ "check" ∷ "done" ∷ [])
    ∷ ("act", "synthesize" ∷ [])
    ∷ ("synthesize", "check" ∷ [])
    ∷ ("check", "plan" ∷ "reason" ∷ "act" ∷ "done" ∷ [])
    ∷ ("done", [])
    ∷ []

-- `FSMBudget`
pub record FsmBudget : Type 0 where
  pub max_iterations : ℕ
  pub max_tool_calls : ℕ
  pub max_wall_time : ℕ
  pub max_subagent_calls : ℕ

pub record BudgetConsumed : Type 0 where
  pub iterations : ℕ
  pub tool_calls : ℕ
  pub wall_time : ℕ
  pub subagent_calls : ℕ

pub record ReactStep : Type 0 where
  pub reasoning : String
  pub action : String
  pub observation : String
  pub tools_used : List String
  pub evidence : List String

pub record WorkflowFsmBuilder (W : Type 0) : Type 0 where
  pub builder : FsmBuilder W
  pub budget : FsmBudget
  pub stagnation_threshold : ℕ
  pub novelty_signatures : List String
  pub react_cycles : List ReactStep
  pub budget_consumed : BudgetConsumed

-- the loops of the constructor
module _ {W : Type 0} where
  add_states : List String → FsmBuilder W → FsmBuilder W
  unfolding with_state
  add_states [] b = b
  add_states (s ∷ states) b = add_states states (with_state s b)

  add_targets : String → List String → FsmBuilder W → FsmBuilder W
  unfolding with_transition
  add_targets s [] b = b
  add_targets s (t ∷ targets) b = add_targets s targets (with_transition s t b)

  add_transitions : Dict String (List String) → FsmBuilder W → FsmBuilder W
  unfolding add_targets
  add_transitions [] b = b
  add_transitions ((s, targets) ∷ rest) b = add_transitions rest (add_targets s targets b)

  -- one hour is 3600 units; the constants are the defaults of `FSMBudget`
  unfoldable pub new_workflow : WorkflowFsmBuilder W
  unfolding add_states add_transitions new with_initial_state
  new_workflow = record {
    builder =
        with_initial_state "intake"
          (add_transitions workflow_transitions (add_states workflow_states new));
    budget = record {
      max_iterations = 100;
      max_tool_calls = 1000;
      max_wall_time = 3600;
      max_subagent_calls = 50;
    };
    stagnation_threshold = 3;
    novelty_signatures = [];
    react_cycles = [];
    budget_consumed = record { iterations = 0; tool_calls = 0; wall_time = 0; subagent_calls = 0 };
  }

  unfoldable pub with_budget : FsmBudget → WorkflowFsmBuilder W → WorkflowFsmBuilder W
  with_budget budget b = record b { budget = budget }

  unfoldable pub with_stagnation_threshold : ℕ → WorkflowFsmBuilder W → WorkflowFsmBuilder W
  with_stagnation_threshold threshold b = record b { stagnation_threshold = threshold }

  unfoldable pub check_novelty {ℓ} :
      {D : Type ℓ} → (D → String) → D → WorkflowFsmBuilder W → Bool × WorkflowFsmBuilder W
  check_novelty compute_novelty_signature datum b =
      let signature = compute_novelty_signature datum in
      if contains signature b.novelty_signatures
      then (false, b)
      else (true, record b { novelty_signatures = add signature b.novelty_signatures })

  unfoldable pub is_stagnation_detected : WorkflowFsmBuilder W → Bool
  is_stagnation_detected b = leb b.stagnation_threshold (length b.novelty_signatures)

  unfoldable pub is_budget_exceeded : WorkflowFsmBuilder W → Bool
  is_budget_exceeded b =
      leb b.budget.max_iterations b.budget_consumed.iterations
      || (leb b.budget.max_tool_calls b.budget_consumed.tool_calls
          || (leb b.budget.max_wall_time b.budget_consumed.wall_time
              || leb b.budget.max_subagent_calls b.budget_consumed.subagent_calls))

  unfoldable pub add_react_cycle : ReactStep → WorkflowFsmBuilder W → WorkflowFsmBuilder W
  add_react_cycle step b = record b { react_cycles = b.react_cycles ++ step ∷ [] }

  unfoldable pub track_budget_consumed :
      (iterations tool_calls wall_time subagent_calls : ℕ)
      → WorkflowFsmBuilder W
      → WorkflowFsmBuilder W
  track_budget_consumed i t s c b = record b {
    budget_consumed = record {
      iterations = b.budget_consumed.iterations + i;
      tool_calls = b.budget_consumed.tool_calls + t;
      wall_time = b.budget_consumed.wall_time + s;
      subagent_calls = b.budget_consumed.subagent_calls + c;
    };
  }

  unfoldable pub get_budget_status : WorkflowFsmBuilder W → BudgetConsumed × FsmBudget
  get_budget_status b = (b.budget_consumed, b.budget)

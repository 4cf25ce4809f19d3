-- ===== src/Policy/Router/Harmless.antt =====
-- What the built-in policies propose passes the validator and the gate.
use dawn_kestrel.Prelude.{
  ℕ, suc, ◌≡◌, refl, true, false, Option, none, some, List, [], ◌∷◌, contains, is_empty, Bool-cases,
  inl, inr, ◌⊎◌, Text, arith,
}
use dawn_kestrel.Policy.{
  Action, ActionType, action_type, type_eq, Priority, TodoItem, PolicyInput, StepProposal,
  get_action_types,
}
use dawn_kestrel.Policy.Todos.{get_first_pending_todo}
use dawn_kestrel.Policy.Words.{
  lower, is_space, lstrip, rstrip, strip, is_infix, has_ink, is_empty-strip,
}
use dawn_kestrel.Policy.Validator.{validate, action_issues, valid_action_types}
use dawn_kestrel.Policy.Gate.{
  enforce, budget_exhausted, budget_exhausted_markers, verify_before_done, approval_required,
}
use dawn_kestrel.Policy.Rules.{
  minimal, budget_exhausted_proposal, approval_request_proposal, for_pending, default_proposal,
  priority_text, is_budget_exhausted, is_high_risk_situation,
}
use dawn_kestrel.Policy.Rules as Rules
use dawn_kestrel.Policy.Router.{
  PolicyEngine, rules, react, plan_execute, fsm, no_action_proposal, fsm_proposal, plan_for,
  propose_by, select_policy, propose,
}

known : (t : ActionType) → contains t valid_action_types ≡ true
unfolding contains valid_action_types
known ActionType.read_file = refl
known ActionType.search_repo = refl
known ActionType.edit_file = refl
known ActionType.run_tests = refl
known ActionType.upsert_todos = refl
known ActionType.request_approval = refl
known ActionType.summarize = refl

blank_without_ink : (s : Text) → has_ink s ≡ true → is_empty s ≡ false
blank_without_ink [] h = cc h
blank_without_ink (c ∷ s) h = refl

no_issues : (i : ℕ) (actions : List Action) → action_issues i actions ≡ []
unfolding action_issues
no_issues i [] = refl
no_issues i (a ∷ actions) = rw (known (action_type a)) (no_issues (suc i) actions)

-- A proposal is valid as soon as its intent is not blank.
intent_suffices : (p : StepProposal) → has_ink p.intent ≡ true → (validate p).valid ≡ true
unfolding validate
intent_suffices p h =
    rw (no_issues 0 p.actions) (ground (arith, is_empty-strip p.intent, blank_without_ink p.intent))

-- a proposal with no actions and no claims, whose notes are harmless, passes the gate
minimal_passes :
    (intent notes : Text) (ids : List Text)
    → budget_exhausted (minimal intent ids notes) ≡ false
    → (enforce (minimal intent ids notes)).valid ≡ true
unfolding enforce minimal verify_before_done approval_required get_action_types
minimal_passes intent notes ids h = rw h refl

approval_passes :
    (input : PolicyInput)
    → ((validate (approval_request_proposal input)).valid ≡ true)
      × ((enforce (approval_request_proposal input)).valid ≡ true)
unfolding approval_request_proposal enforce verify_before_done approval_required get_action_types
    action_type contains budget_exhausted budget_exhausted_markers lower strip lstrip rstrip
    is_space is_infix
approval_passes input = (intent_suffices (approval_request_proposal input) refl, refl)

exhausted_passes :
    ((validate budget_exhausted_proposal).valid ≡ true)
    × ((enforce budget_exhausted_proposal).valid ≡ true)
unfolding budget_exhausted_proposal minimal budget_exhausted budget_exhausted_markers lower strip
    lstrip rstrip is_space is_infix
exhausted_passes = (intent_suffices budget_exhausted_proposal refl, minimal_passes _ _ _ refl)

none_pending_passes :
    ((validate (for_pending none)).valid ≡ true) × ((enforce (for_pending none)).valid ≡ true)
unfolding for_pending minimal budget_exhausted budget_exhausted_markers lower strip lstrip rstrip
    is_space is_infix
none_pending_passes = (intent_suffices (for_pending none) refl, minimal_passes _ _ _ refl)

calm_notes :
    (p : Priority) (t : TodoItem)
    → budget_exhausted (for_pending (some (record t { priority = p }))) ≡ false
unfolding budget_exhausted budget_exhausted_markers lower strip lstrip rstrip is_space is_infix
    for_pending minimal priority_text
calm_notes Priority.high t = refl
calm_notes Priority.medium t = refl
calm_notes Priority.low t = refl

default_passes :
    (o : Option TodoItem)
    → ((validate (for_pending o)).valid ≡ true) × ((enforce (for_pending o)).valid ≡ true)
unfolding for_pending
default_passes none = none_pending_passes
default_passes (some t) = (
  intent_suffices _ (unfold minimal is_space in refl),
  minimal_passes _ _ _ (calm_notes t.priority t),
)

rules_pass :
    (input : PolicyInput)
    → ((validate (Rules.propose input)).valid ≡ true)
      × ((enforce (Rules.propose input)).valid ≡ true)
unfolding Rules.propose default_proposal
rules_pass input = elim (Bool-cases (is_budget_exhausted input.budgets)) [
  | inl spent ↦ rw spent exhausted_passes
  | inr left ↦ elim (Bool-cases (is_high_risk_situation input)) [
    | inl risky ↦ rw (left, risky) (approval_passes input)
    | inr calm ↦ rw (left, calm) (default_passes (get_first_pending_todo input.active_todos))
  ]
]

plan_valid : (o : Option TodoItem) → (validate (plan_for o)).valid ≡ true
unfolding plan_for
plan_valid none = intent_suffices _ (unfold minimal is_space in refl)
plan_valid (some t) = intent_suffices _ (unfold minimal is_space in refl)

react_passes :
    ((validate no_action_proposal).valid ≡ true) × ((enforce no_action_proposal).valid ≡ true)
unfolding no_action_proposal minimal budget_exhausted lower strip lstrip rstrip is_space
react_passes = (intent_suffices no_action_proposal refl, minimal_passes _ _ _ refl)

fsm_passes : ((validate fsm_proposal).valid ≡ true) × ((enforce fsm_proposal).valid ≡ true)
unfolding fsm_proposal minimal budget_exhausted lower strip lstrip rstrip is_space
fsm_passes = (intent_suffices fsm_proposal refl, minimal_passes _ _ _ refl)

passes :
    (e : PolicyEngine) (input : PolicyInput)
    → ((validate (propose_by e input)).valid ≡ true)
      × ((e ≡ plan_execute) ⊎ ((enforce (propose_by e input)).valid ≡ true))
unfolding propose_by
passes rules input = ((rules_pass input).0, inr (rules_pass input).1)
passes react input = (react_passes.0, inr react_passes.1)
passes plan_execute input = (plan_valid (get_first_pending_todo input.active_todos), inl refl)
passes fsm input = (fsm_passes.0, inr fsm_passes.1)

-- Whatever the mode and the input, the proposal of the router is valid, and unless it is the planning
-- policy's, in whose notes the identifier of a TODO stands, the gate accepts it. So the proposal by
-- which the policy of rules says that the budget is exhausted is accepted as well.
pub propose_passes :
    (policy_mode : Option Text) (input : PolicyInput)
    → ((validate (propose policy_mode input)).valid ≡ true)
      × ((select_policy policy_mode input ≡ plan_execute)
          ⊎ ((enforce (propose policy_mode input)).valid ≡ true))
unfolding propose
propose_passes policy_mode input = passes (select_policy policy_mode input) input

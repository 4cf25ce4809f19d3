-- ===== src/Policy/Validator.antt =====
-- dawn_kestrel/policy/validator.py: `ProposalValidator`. Errors and warnings are kept by what they say.
use dawn_kestrel.Prelude.{
  ℕ, suc, Bool, not, ◌||◌, ◌&&◌, List, [], ◌∷◌, ◌++◌, contains, is_empty, if◌then◌else◌,
}
use dawn_kestrel.Policy.{Action, ActionType, action_type, type_eq, StepProposal}
use dawn_kestrel.Policy.Words.{strip}

pub record ValidationResult (E : Type 0) : Type 0 where
  pub valid : Bool
  pub errors : List E
  pub warnings : List E

pub data Issue : Type 0 where
  intent_required : Issue
  unknown_action : ℕ → ActionType → Issue
  no_actions no_completion_claims : Issue

unfoldable pub valid_action_types : List ActionType
valid_action_types =
    ActionType.read_file ∷ ActionType.search_repo ∷ ActionType.edit_file ∷ ActionType.run_tests
    ∷ ActionType.upsert_todos ∷ ActionType.request_approval ∷ ActionType.summarize ∷ []

-- the loop over `enumerate(proposal.actions)`
unfoldable pub action_issues : ℕ → List Action → List Issue
unfolding valid_action_types
action_issues i [] = []
action_issues i (a ∷ actions) =
    let rest = action_issues (suc i) actions in
    if contains (action_type a) valid_action_types
    then rest
    else unknown_action i (action_type a) ∷ rest

-- A risk level is one of the enumeration, so its check finds nothing.
unfoldable pub validate : StepProposal → ValidationResult Issue
unfolding action_issues
validate p =
    let errors =
      (if is_empty p.intent || is_empty (strip p.intent) then intent_required ∷ [] else [])
      ++ action_issues 0 p.actions in
    record {
      valid = is_empty errors;
      errors = errors;
      warnings =
          (if is_empty p.actions then no_actions ∷ [] else [])
          ++ (if not (is_empty p.target_todo_ids) && is_empty p.completion_claims
              then no_completion_claims ∷ []
              else []);
    }

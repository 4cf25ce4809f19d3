-- ===== src/Policy/Gate.antt =====
-- dawn_kestrel/policy/invariants.py: `HarnessInvariants` and `HarnessGate`. An error is the payload of
-- which the code makes JSON.
pub mod Accepts
use dawn_kestrel.Prelude.{
  Bool, true, false, not, ◌||◌, ◌&&◌, Option, none, some, List, [], ◌∷◌, ◌++◌, map, contains,
  is_empty, if◌then◌else◌, Text, codes,
}
use dawn_kestrel.Policy.{
  Action, ActionType, action_type, type_eq, EvidenceType, TodoCompletionClaim, RiskLevel,
  StepProposal, get_action_types, any,
}
use dawn_kestrel.Policy.Words.{lower, strip, is_infix}
use dawn_kestrel.Policy.Validator.{ValidationResult}

unfoldable pub budget_exhausted_markers : List Text
budget_exhausted_markers =
    codes "budget_exhausted"
    ∷ codes "budget exhausted"
    ∷ codes "budget_exceeded"
    ∷ codes "budget exceeded"
    ∷ []

abbrev pub is_verification : EvidenceType → Bool
is_verification EvidenceType.test_passed = true
is_verification EvidenceType.build_succeeded = true
is_verification EvidenceType.manual_review = true
is_verification _ = false

abbrev pub needs_approval : ActionType → Bool
needs_approval ActionType.edit_file = true
needs_approval ActionType.run_tests = true
needs_approval _ = false

unfoldable pub verify_before_done : StepProposal → Bool
verify_before_done p =
    if is_empty p.completion_claims
    then true
    else any (λ c. is_verification c.evidence_type) p.completion_claims

-- true when no approval is missing
unfoldable pub approval_required : StepProposal → Bool
approval_required p =
    let action_types = get_action_types p in
    if not (any needs_approval action_types)
    then true
    else contains ActionType.request_approval action_types

unfoldable pub budget_exhausted : StepProposal → Bool
unfolding budget_exhausted_markers
budget_exhausted p =
    let notes = strip (lower p.notes) in
    if is_empty notes then false else any (λ m. is_infix m notes) budget_exhausted_markers

-- BUDGET_EXHAUSTED, UNVERIFIED_COMPLETION and APPROVAL_REQUIRED
pub data ReasonCode : Type 0 where
  no_budget unverified_completion unapproved : ReasonCode

-- `complete_todo`, `halt` and `unknown` stand for the texts that are no action types
pub data Blocked : Type 0 where
  action : ActionType → Blocked
  complete_todo halt unknown : Blocked

pub record Rejection : Type 0 where
  pub reason_code : ReasonCode
  pub blocked_action_type : Blocked
  pub blocked_action_risk : RiskLevel
  pub remediation_hints : List Text

unfoldable pub first_action_type : List ActionType → Blocked → Blocked
first_action_type [] otherwise = otherwise
first_action_type (t ∷ ts) otherwise = action t

-- the loop of `_approval_blocked_action`
unfoldable pub first_needing : List ActionType → Blocked → Blocked
first_needing [] otherwise = otherwise
first_needing (t ∷ ts) otherwise = if needs_approval t then action t else first_needing ts otherwise

unfoldable pub approval_blocked_action : StepProposal → Blocked
unfolding first_needing first_action_type
approval_blocked_action p =
    first_needing (get_action_types p) (first_action_type (get_action_types p) unknown)

unfoldable pub rejected :
    ReasonCode → Blocked → StepProposal → List Text → ValidationResult Rejection
rejected reason blocked p hints = record {
  valid = false;
  errors =
      record {
        reason_code = reason;
        blocked_action_type = blocked;
        blocked_action_risk = p.risk_level;
        remediation_hints = hints;
      }
      ∷ [];
  warnings = [];
}

unfoldable pub enforce : StepProposal → ValidationResult Rejection
unfolding rejected approval_blocked_action
enforce p =
    if budget_exhausted p
    then rejected no_budget (first_action_type (get_action_types p) halt) p (
        codes "Stop execution and request additional budget approval"
        ∷ codes "Summarize progress before exiting"
        ∷ [])
    else if not (verify_before_done p)
    then rejected unverified_completion complete_todo p (
        codes "Provide verification evidence (test_passed, build_succeeded, manual_review)"
        ∷ codes "Include evidence references for completed work"
        ∷ [])
    else if not (approval_required p)
    then rejected unapproved (approval_blocked_action p) p (
        codes "Add a REQUEST_APPROVAL action before high-risk operations"
        ∷ codes "Wait for explicit approval before proceeding"
        ∷ [])
    else record { valid = true; errors = []; warnings = [] }

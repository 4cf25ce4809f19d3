-- ===== src/Policy.antt =====
-- dawn_kestrel/policy/contracts.py: what policies are given and what they propose. Texts are lists of
-- code points, since the gate and the router look inside them; values of type `Any` are JSON; seconds
-- are whole, and counts are not negative.
pub mod Todos
pub mod Rules
pub mod Words
pub mod Gate
pub mod Router
pub mod Validator
pub mod Delegating
use dawn_kestrel.Prelude.{
  ℕ, zero, suc, Bool, true, false, ◌||◌, Option, none, some, List, [], ◌∷◌, map, Dict, Text, codes,
  Eq, ◌==◌, ◌↔◌, ◌≡◌, arith,
}

pub data RiskLevel : Type 0 where
  low med high : RiskLevel

mutual
  pub data Json : Type 0 where
    null : Json
    boolean : Bool → Json
    num : ℕ → Json
    str : Text → Json
    arr : JsonItems → Json
    obj : JsonFields → Json

  pub data JsonItems : Type 0 where
    nil : JsonItems
    cons : Json → JsonItems → JsonItems

  pub data JsonFields : Type 0 where
    end : JsonFields
    field : Text → Json → JsonFields → JsonFields

pub data EditOperation : Type 0 where
  replace insert append delete : EditOperation

pub record ReadFileAction : Type 0 where
  pub path : Text
  pub offset : Option ℕ
  pub limit : Option ℕ

pub record SearchRepoAction : Type 0 where
  pub pattern : Text
  pub file_pattern : Option Text
  pub max_results : ℕ

pub record EditFileAction : Type 0 where
  pub path : Text
  pub operation : EditOperation
  pub content : Option Text
  pub line_start : Option ℕ
  pub line_end : Option ℕ

pub record RunTestsAction : Type 0 where
  pub test_path : Text
  pub filter_pattern : Option Text
  pub extra_args : List Text

pub record UpsertTodosAction : Type 0 where
  pub todos : List (Dict Text Json)
  pub delete_ids : List Text

pub record RequestApprovalAction : Type 0 where
  pub message : Text
  pub options : List Text
  pub timeout_seconds : Option ℕ

pub record SummarizeAction : Type 0 where
  pub content : Text
  pub max_length : ℕ
  pub focus_areas : List Text

-- the union of the actions
pub data Action : Type 0 where
  read_file : ReadFileAction → Action
  search_repo : SearchRepoAction → Action
  edit_file : EditFileAction → Action
  run_tests : RunTestsAction → Action
  upsert_todos : UpsertTodosAction → Action
  request_approval : RequestApprovalAction → Action
  summarize : SummarizeAction → Action

-- the discriminators, `action_type`
pub data ActionType : Type 0 where
  read_file search_repo edit_file run_tests upsert_todos request_approval summarize : ActionType

unfoldable pub action_type : Action → ActionType
action_type (Action.read_file a) = ActionType.read_file
action_type (Action.search_repo a) = ActionType.search_repo
action_type (Action.edit_file a) = ActionType.edit_file
action_type (Action.run_tests a) = ActionType.run_tests
action_type (Action.upsert_todos a) = ActionType.upsert_todos
action_type (Action.request_approval a) = ActionType.request_approval
action_type (Action.summarize a) = ActionType.summarize

abbrev pub type_beq : ActionType → ActionType → Bool
type_beq ActionType.read_file ActionType.read_file = true
type_beq ActionType.search_repo ActionType.search_repo = true
type_beq ActionType.edit_file ActionType.edit_file = true
type_beq ActionType.run_tests ActionType.run_tests = true
type_beq ActionType.upsert_todos ActionType.upsert_todos = true
type_beq ActionType.request_approval ActionType.request_approval = true
type_beq ActionType.summarize ActionType.summarize = true
type_beq _ _ = false

pub type_beq_iff : (a b : ActionType) → (type_beq a b ≡ true) ↔ (a ≡ b)
type_beq_iff a b = (λ h. ground arith, λ h. ground arith)

instance abbrev pub type_eq : Eq ActionType
type_eq = record { same = type_beq; same_iff = type_beq_iff }

pub data RequestType : Type 0 where
  file symbol search dependency history custom : RequestType

pub data Priority : Type 0 where
  high medium low : Priority

pub record ContextRequest : Type 0 where
  pub request_type : RequestType
  pub query : Text
  pub scope : List Text
  pub priority : Priority
  pub rationale : Text

pub data EvidenceType : Type 0 where
  file_modified test_passed build_succeeded manual_review inference other : EvidenceType

-- `confidence` is a fraction
pub record TodoCompletionClaim : Type 0 where
  pub todo_id : Text
  pub evidence_type : EvidenceType
  pub evidence_summary : Text
  pub evidence_refs : List Text
  pub confidence : ℕ × ℕ
  pub verification_hints : Text

pub data TodoStatus : Type 0 where
  pending in_progress completed blocked skipped : TodoStatus

pub record TodoItem : Type 0 where
  pub id : Text
  pub description : Text
  pub status : TodoStatus
  pub priority : Priority
  pub dependencies : List Text

pub data EventOutcome : Type 0 where
  success failure pending skipped : EventOutcome

pub record EventSummary : Type 0 where
  pub event_type : Text
  pub timestamp : Text
  pub summary : Text
  pub outcome : EventOutcome

pub record BudgetInfo : Type 0 where
  pub max_iterations : ℕ
  pub max_tool_calls : ℕ
  pub max_wall_time_seconds : ℕ
  pub max_subagent_calls : ℕ
  pub iterations_consumed : ℕ
  pub tool_calls_consumed : ℕ
  pub wall_time_consumed : ℕ
  pub subagent_calls_consumed : ℕ

pub data ConstraintType : Type 0 where
  permission tool_restriction file_pattern time_limit custom : ConstraintType

pub data Severity : Type 0 where
  hard soft : Severity

pub record Constraint : Type 0 where
  pub constraint_type : ConstraintType
  pub value : Text
  pub description : Text
  pub severity : Severity

pub record PolicyInput : Type 0 where
  pub goal : Text
  pub active_todos : List TodoItem
  pub last_events : List EventSummary
  pub granted_context : Dict Text Json
  pub budgets : BudgetInfo
  pub constraints : List Constraint

pub record StepProposal : Type 0 where
  pub intent : Text
  pub target_todo_ids : List Text
  pub requested_context : List ContextRequest
  pub actions : List Action
  pub completion_claims : List TodoCompletionClaim
  pub risk_level : RiskLevel
  pub notes : Text

unfoldable pub get_action_types : StepProposal → List ActionType
get_action_types p = map action_type p.actions

-- `any(...)`
abbrev pub any {ℓ} : {A : Type ℓ} → (A → Bool) → List A → Bool
any p [] = false
any p (x ∷ xs) = p x || any p xs

abbrev pub is_high_risk : ActionType → Bool
is_high_risk ActionType.edit_file = true
is_high_risk ActionType.run_tests = true
is_high_risk ActionType.request_approval = true
is_high_risk _ = false

unfoldable pub has_high_risk_actions : StepProposal → Bool
has_high_risk_actions p = any (λ a. is_high_risk (action_type a)) p.actions

-- ===== src/Agents/State.antt =====
-- dawn_kestrel/agents/state.py: the lifecycle of an agent.
pub mod Machine
use dawn_kestrel.Prelude.{
  String, ◌≡◌, refl, Bool, true, false, Option, none, some, List, [], ◌∷◌, map, Eq, ◌==◌, ◌↔◌, Dict,
  lookup, contains, Message, text, names, ◌&◌, if◌then◌else◌, arith,
}
use dawn_kestrel.Core.Result.{Result, ok, err_code}

pub data AgentState : Type 0 where
  idle initializing ready running paused completed failed : AgentState

-- `.value`
pub value : AgentState → String
value idle = "idle"
value initializing = "initializing"
value ready = "ready"
value running = "running"
value paused = "paused"
value completed = "completed"
value failed = "failed"

abbrev pub state_beq : AgentState → AgentState → Bool
state_beq idle idle = true
state_beq initializing initializing = true
state_beq ready ready = true
state_beq running running = true
state_beq paused paused = true
state_beq completed completed = true
state_beq failed failed = true
state_beq _ _ = false

pub state_beq_iff : (a b : AgentState) → (state_beq a b ≡ true) ↔ (a ≡ b)
state_beq_iff a b = (λ h. ground arith, λ h. ground arith)

instance abbrev pub state_eq : Eq AgentState
state_eq = record { same = state_beq; same_iff = state_beq_iff }

abbrev pub Transitions : Type 0
Transitions = Dict AgentState (List AgentState)

unfoldable pub fsm_transitions : Transitions
fsm_transitions =
    (idle, initializing ∷ [])
    ∷ (initializing, ready ∷ failed ∷ [])
    ∷ (ready, running ∷ failed ∷ [])
    ∷ (running, paused ∷ completed ∷ failed ∷ [])
    ∷ (paused, running ∷ completed ∷ failed ∷ [])
    ∷ (completed, [])
    ∷ (failed, [])
    ∷ []

-- `d.get(k, set())`
abbrev pub targets : Transitions → AgentState → List AgentState
targets d s = elim (lookup s d) [ none ↦ [] | some l ↦ l ]

pub record AgentStateMachine : Type 0 where
  pub current_state : AgentState
  pub transitions : Transitions

unfoldable pub init : Option Transitions → AgentStateMachine
init none = record { current_state = idle; transitions = fsm_transitions }
init (some t) = record { current_state = idle; transitions = t }

pub is_valid_transition : AgentStateMachine → AgentState → AgentState → Bool
is_valid_transition m from_state to_state = contains to_state (targets m.transitions from_state)

unfoldable pub can_transition_to : AgentStateMachine → AgentState → Bool
unfolding is_valid_transition
can_transition_to m next_state = is_valid_transition m m.current_state next_state

unfoldable pub transition_to :
    AgentStateMachine → AgentState → Result AgentState × AgentStateMachine
unfolding is_valid_transition
transition_to m next_state =
    if is_valid_transition m m.current_state next_state
    then (ok next_state, record m { current_state = next_state })
    else (
      err_code
          (text "Invalid transition: "
            & text (value m.current_state)
            & text " -> "
            & text (value next_state)
            & text ". Valid transitions from "
            & text (value m.current_state)
            & text ": "
            & names (map value (targets m.transitions m.current_state)))
          "INVALID_TRANSITION",
      m,
    )

unfoldable pub reset : AgentStateMachine → AgentStateMachine
reset m = record m { current_state = idle }

-- ===== src/Core/Fsm.antt =====
-- dawn_kestrel/core/fsm.py: the data of the state machine framework. What the machine calls and
-- does not implement (hooks, observers, the mediator) is a `Program` over a world `W` of any type, which
-- can call the machine back; the repository and the reliability wrappers only act on the world. Values
-- in dictionaries are texts.
pub mod Machine
pub mod Builder
pub mod Workflow
use dawn_kestrel.Prelude.{ℕ, String, Bool, Option, List, Dict, Message, Outcome}
use dawn_kestrel.Core.Result.{Result}

-- `FSMContext`
pub record Context : Type 0 where
  pub timestamp : ℕ
  pub source : Message
  pub metadata : Dict String String
  pub user_data : Dict String String

-- `TransitionCommand` of dawn_kestrel/core/commands.py
pub record TransitionCommand : Type 0 where
  pub fsm_id : String
  pub from_state : String
  pub to_state : String

-- `EventType` of dawn_kestrel/core/mediator.py
pub data EventType : Type 0 where
  domain application system llm : EventType

-- the dictionary that the mediator and the observers are given
pub record StateChange : Type 0 where
  pub fsm_id : String
  pub from_state : String
  pub to_state : String
  pub timestamp : ℕ

pub record Event : Type 0 where
  pub event_type : EventType
  pub source : String
  pub payload : StateChange

-- What a callback does: it ends with an answer or an exception, or it acts on the world, asks the machine
-- for its state and history, or calls `transition_to`, `register_observer` or `unregister_observer` of
-- it, and goes on. What comes after an action can depend on the world before it.
pub data Program (W : Type 0) : Type 0 where
  ends : Outcome (Result (Unit {0})) → Program W
  acts : (W → W) → (W → Program W) → Program W
  reads : (String → List TransitionCommand → Program W) → Program W
  transitions :
      String → Option Context → (Outcome (Result TransitionCommand) → Program W) → Program W
  registers : (identity : ℕ) → (on_notify : StateChange → Program W) → Program W → Program W
  unregisters : (identity : ℕ) → Program W → Program W

abbrev pub Hook : Type 0 → Type 0
Hook W = Context → Program W

-- a guard of `with_guard`
abbrev pub Guard : Type 0 → Type 0
Guard W = Context → W → Outcome (Result Bool) × W

-- `publish` of the mediator
abbrev pub Mediator : Type 0 → Type 0
Mediator W = Event → Program W

-- An observer is an object: two observers are the same if their identities are.
pub record Observer (W : Type 0) : Type 0 where
  pub identity : ℕ
  pub on_notify : StateChange → Program W

-- What a retry executor does with an operation: it ends, it acts on the world, or it tries once more.
pub data Attempts (W : Type 0) : Type 0 where
  finished : Result (Unit {0}) → Attempts W
  waits : (W → W) → (W → Attempts W) → Attempts W
  tries : (Outcome (Result (Unit {0})) → Attempts W) → Attempts W

-- `FSMReliabilityConfig`: of each wrapper the call that its protocol offers
pub record ReliabilityConfig (W : Type 0) : Type 0 where
  pub circuit_breaker : Option (W → Bool × W)
  pub retry_executor : Option (Attempts W)
  pub rate_limiter : Option (String → W → Result Bool × W)
  pub bulkhead : Option (String → W → Result (Unit {0}) × W)
  pub enabled : Bool

-- `FSMImpl`
pub record Fsm (W : Type 0) : Type 0 where
  pub state : String
  pub valid_states : List String
  pub valid_transitions : Dict String (List String)
  pub fsm_id : String
  pub command_history : List TransitionCommand
  pub repository : Option (String → String → W → Result (Unit {0}) × W)
  pub mediator : Option (Mediator W)
  pub observers : List (Observer W)
  pub entry_hooks : Dict String (Hook W)
  pub exit_hooks : Dict String (Hook W)
  pub reliability_config : Option (ReliabilityConfig W)

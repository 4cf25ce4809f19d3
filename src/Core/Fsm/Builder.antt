-- ===== src/Core/Fsm/Builder.antt =====
-- dawn_kestrel/core/fsm.py, class `FSMBuilder`. A method returns the builder after it.
pub mod Known
pub mod Closed
use dawn_kestrel.Prelude.{
  ℕ, String, Bool, true, false, Option, none, some, List, [], ◌∷◌, ◌++◌, Dict, lookup, insert,
  contains, add, is_empty, not, ◌&&◌, Message, text, names, ◌&◌, Outcome, returns, raises,
  if◌then◌else◌, string_eq, pair_eq,
}
use dawn_kestrel.Core.Result.{Result, ok, err, err_code}
use dawn_kestrel.Core.Fsm.{Mediator, Hook, Guard, Observer, ReliabilityConfig, Fsm}
use dawn_kestrel.Core.Fsm.Machine.{init}

pub record FsmBuilder (W : Type 0) : Type 0 where
  pub states : List String
  pub transitions : Dict String (List String)
  pub entry_hooks : Dict String (Hook W)
  pub exit_hooks : Dict String (Hook W)
  pub guards : Dict (String × String) (Guard W)
  pub repository : Option (String → String → W → Result (Unit {0}) × W)
  pub mediator : Option (Mediator W)
  pub observers : List (Observer W)
  pub reliability_config : Option (ReliabilityConfig W)
  pub initial_state : String

-- the inner loop of `build`, over the targets of one state
pub undefined_targets : List String → List String → List String → List String
undefined_targets states [] undefined = undefined
undefined_targets states (t ∷ ts) undefined =
    undefined_targets states ts (if not (contains t states) then add t undefined else undefined)

-- the outer loop of `build`
pub undefined_states : List String → Dict String (List String) → List String → List String
unfolding undefined_targets
undefined_states states [] undefined = undefined
undefined_states states ((s, ts) ∷ rest) undefined =
    undefined_states states rest
      (undefined_targets states ts (if not (contains s states) then add s undefined else undefined))

module _ {W : Type 0} where
  unfoldable pub new : FsmBuilder W
  new = record {
    states = [];
    transitions = [];
    entry_hooks = [];
    exit_hooks = [];
    guards = [];
    repository = none;
    mediator = none;
    observers = [];
    reliability_config = none;
    initial_state = "idle";
  }

  unfoldable pub with_initial_state : String → FsmBuilder W → FsmBuilder W
  with_initial_state s b = record b { initial_state = s }

  unfoldable pub with_state : String → FsmBuilder W → FsmBuilder W
  with_state s b = record b { states = add s b.states }

  unfoldable pub with_transition : String → String → FsmBuilder W → FsmBuilder W
  with_transition from_state to_state b =
      let seen : List String = elim (lookup from_state b.transitions) [
        | none ↦ []
        | some ts ↦ ts
      ] in
      record b {
        transitions = insert from_state (add to_state seen) b.transitions;
        states = add to_state (add from_state b.states);
      }

  unfoldable pub with_entry_hook : String → Hook W → FsmBuilder W → FsmBuilder W
  with_entry_hook s hook b = record b { entry_hooks = insert s hook b.entry_hooks }

  unfoldable pub with_exit_hook : String → Hook W → FsmBuilder W → FsmBuilder W
  with_exit_hook s hook b = record b { exit_hooks = insert s hook b.exit_hooks }

  unfoldable pub with_guard : String → String → Guard W → FsmBuilder W → FsmBuilder W
  with_guard from_state to_state guard b = record b {
    guards = insert (from_state, to_state) guard b.guards;
  }

  unfoldable pub with_persistence :
      (String → String → W → Result (Unit {0}) × W) → FsmBuilder W → FsmBuilder W
  with_persistence repository b = record b { repository = some repository }

  unfoldable pub with_mediator : Mediator W → FsmBuilder W → FsmBuilder W
  with_mediator mediator b = record b { mediator = some mediator }

  unfoldable pub with_observer : Observer W → FsmBuilder W → FsmBuilder W
  with_observer o b = record b { observers = b.observers ++ o ∷ [] }

  unfoldable pub with_reliability : ReliabilityConfig W → FsmBuilder W → FsmBuilder W
  with_reliability config b = record b { reliability_config = some config }

  -- The call of the constructor may raise, so the whole may. `object_id` names the new object.
  unfoldable pub build : FsmBuilder W → Option String → String → Outcome (Result (Fsm W))
  unfolding undefined_states init
  build b initial_state object_id =
      let actual : String = elim initial_state [ none ↦ b.initial_state | some s ↦ s ] in
      let undefined = undefined_states b.states b.transitions [] in
      if not (is_empty undefined)
      then returns (
          err_code
            (text "Undefined states in transitions: "
              & names undefined
              & text ". Define states using with_state() before using them in transitions.")
            "UNDEFINED_STATE_IN_TRANSITION")
      else if not (is_empty b.states) && not (contains actual b.states)
      then returns (
          err_code
            (text "Invalid initial state: "
              & text actual
              & text ". Valid states are: "
              & names b.states)
            "INVALID_INITIAL_STATE")
      else elim (init actual b.states b.transitions none object_id b.repository b.mediator
          b.observers b.entry_hooks b.exit_hooks b.reliability_config) [
            | returns fsm ↦ returns (ok fsm)
            | raises e ↦ raises e
          ]

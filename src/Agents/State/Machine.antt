-- ===== src/Agents/State/Machine.antt =====
-- What sequences of requests to the state machine of dawn_kestrel/agents/state.py can do.
use mathlib.Core.List.{Sublist, nil-sublist}
use mathlib.Core.List.Sublist
use dawn_kestrel.Prelude.{
  ◌≡◌, ◌≢◌, refl, none, List, [], ◌∷◌, ◌⊎◌, inl, inr, arith, lookup, contains, if◌then◌else◌,
}
use dawn_kestrel.Core.Result.{is_ok, unwrap_or}
use dawn_kestrel.Agents.State.{
  AgentState, idle, initializing, ready, running, paused, completed, failed, AgentStateMachine,
  fsm_transitions, init, can_transition_to, transition_to, state_eq,
}

-- a caller's requests, one after the other
unfoldable pub run : AgentStateMachine → List AgentState → AgentStateMachine
run m [] = m
run m (s ∷ reqs) = run (transition_to m s).1 reqs

-- `can_transition_to` foretells `transition_to`: on true the answer is `Ok` of the new state and
-- the machine moves there; on false it is an `Err` and the machine is unchanged. The map stays.
pub transition_to-can_transition_to :
    (m : AgentStateMachine) (s default : AgentState)
    → (transition_to m s).1 ≡ (if can_transition_to m s then record m { current_state = s } else m)
      × (is_ok (transition_to m s).0 ≡ can_transition_to m s)
      × (unwrap_or (transition_to m s).0 default ≡ (if can_transition_to m s then s else default))
unfolding can_transition_to transition_to unwrap_or
transition_to-can_transition_to m s default = ground arith

-- the default machine in a given state
abbrev pub default_at : AgentState → AgentStateMachine
default_at s = record { current_state = s; transitions = fsm_transitions }

abbrev after : AgentState → AgentState → AgentState
after s r = (transition_to (default_at s) r).1.current_state

-- what a run to `completed` still has to ask for, in this order
abbrev chain : AgentState → List AgentState
chain idle = initializing ∷ ready ∷ running ∷ completed ∷ []
chain initializing = ready ∷ running ∷ completed ∷ []
chain ready = running ∷ completed ∷ []
chain running = completed ∷ []
chain paused = completed ∷ []
chain _ = []

after-chain :
    (s r : AgentState)
    → (chain s ≡ chain (after s r)) ⊎ (chain s ≡ r ∷ chain (after s r)) ⊎ (after s r ≡ failed)
unfolding transition_to fsm_transitions lookup contains
after-chain s r = ground arith

moved : (s r : AgentState) → (transition_to (default_at s) r).1 ≡ default_at (after s r)
unfolding transition_to
moved s r = ground arith

stuck : (s r : AgentState) → (s ≡ completed) ⊎ (s ≡ failed) → after s r ≡ s
unfolding transition_to fsm_transitions lookup contains
stuck s r h = ground arith

-- On the default map `completed` and `failed` are final: no sequence of requests moves the machine.
pub run-terminal :
    (s : AgentState) (reqs : List AgentState)
    → (s ≡ completed) ⊎ (s ≡ failed)
    → run (default_at s) reqs ≡ default_at s
unfolding run
run-terminal s [] h = refl
run-terminal s (r ∷ reqs) h = rw (moved s r, stuck s r h) (run-terminal s reqs h)

chain-sublist :
    (s : AgentState) (reqs : List AgentState)
    → (run (default_at s) reqs).current_state ≡ completed
    → Sublist (chain s) reqs
unfolding run
chain-sublist s [] h = rw h (nil-sublist [])
chain-sublist s (r ∷ reqs) h =
    let h' : (run (default_at (after s r)) reqs).current_state ≡ completed = rw (← moved s r) h in
    let ih = chain-sublist (after s r) reqs h' in
    elim (after-chain s r) [
      | inl same ↦ rw same (Sublist.cons r ih)
      | inr (inl asked) ↦ rw asked (Sublist.cons-cons r ih)
      | inr (inr dead) ↦
          let e : run (default_at (after s r)) reqs ≡ default_at (after s r) =
            run-terminal (after s r) reqs (inr dead) in
          ground (arith, e)
    ]

-- An agent that the default machine has seen through to `completed` was asked for `initializing`,
-- `ready`, `running` and `completed`, in this order.
pub completed_in_order :
    (reqs : List AgentState)
    → (run (init none) reqs).current_state ≡ completed
    → Sublist (initializing ∷ ready ∷ running ∷ completed ∷ []) reqs
unfolding init
completed_in_order reqs h = chain-sublist idle reqs h

-- From every state but `failed` some requests lead the default machine to `completed`.
pub completed_reachable :
    (s : AgentState)
    → s ≢ failed
    → (reqs : List AgentState) × (run (default_at s) reqs ≡ default_at completed)
unfolding run transition_to fsm_transitions lookup contains
completed_reachable failed h = absurd (h refl)
completed_reachable idle _ = (chain idle, refl)
completed_reachable s _ = (chain s, refl)

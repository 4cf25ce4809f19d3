-- ===== src/Tests/Agents.antt =====
-- dawn_kestrel/agents/state.py
use mathlib.Core.List.{Sublist}
use dawn_kestrel.Prelude.{◌≡◌, refl, none, List, [], ◌∷◌, lookup, contains}
use dawn_kestrel.Agents.State.{
  AgentState, initializing, ready, running, paused, completed, init, transition_to, fsm_transitions,
}
use dawn_kestrel.Agents.State.Machine.{run, completed_in_order}

abbrev life : List AgentState
life = initializing ∷ completed ∷ ready ∷ running ∷ paused ∷ running ∷ completed ∷ []

life_completes : (run (init none) life).current_state ≡ completed
unfolding run init transition_to fsm_transitions lookup contains
life_completes = refl

completed_in_order_example : Sublist (initializing ∷ ready ∷ running ∷ completed ∷ []) life
completed_in_order_example = completed_in_order life life_completes

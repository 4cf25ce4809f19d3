-- ===== src/Delegation/Delegate.antt =====
-- dawn_kestrel/delegation/engine.py: `delegate` of an engine whose mode is DFS, and the result that it
-- builds. The default mode is BFS, which is not modelled.
use dawn_kestrel.Prelude.{
  ℕ, String, Bool, false, Option, some, List, ltb, is_empty, get_last?, Message, returns, raises,
}
use dawn_kestrel.Core.Result.{Result, ok, err}
use dawn_kestrel.Delegation.{
  StopReason, completed, Children, new_context, new_tracker, is_converged,
}
use dawn_kestrel.Delegation.Engine.{Config, Engine, execute_dfs}

-- `DelegationResult`
pub record DelegationResult (R : Type 0) : Type 0 where
  pub success : Bool
  pub stop_reason : StopReason
  pub results : List R
  pub errors : List Message
  pub total_agents : ℕ
  pub max_depth_reached : ℕ
  pub elapsed : ℕ
  pub iterations : ℕ
  pub converged : Bool
  pub stagnation_detected : Bool
  pub final_novelty_signature : Option String

module _ {R W : Type 0} (config : Config R W) where
  unfoldable pub build_result : StopReason → Engine R → W → DelegationResult R
  build_result stop_reason e w = record {
    success = is_empty e.context.errors;
    stop_reason = stop_reason;
    results = e.context.results;
    errors = e.context.errors;
    total_agents = e.context.total_agents_spawned;
    max_depth_reached = e.context.current_depth;
    elapsed = config.elapsed w;
    iterations = e.context.iteration_count;
    converged = is_converged e.convergence config.budget.stagnation_threshold;
    stagnation_detected = ltb 0 e.convergence.stagnation_count;
    final_novelty_signature = get_last? e.convergence.signatures;
  }

  unfoldable pub new_engine : Engine R
  new_engine = record { context = new_context; convergence = new_tracker }

  -- `delegate` where `config.mode` is DFS: the context is new, and the tracker has the signatures of the
  -- engine's earlier delegations.
  unfoldable pub delegate_depth_first :
      String → String → Children → Engine R → W → Result (DelegationResult R) × Engine R × W
  delegate_depth_first agent prompt children before w =
      let (o, e, w') =
        execute_dfs config agent prompt children (record before { context = new_context }) w in
      (
        elim o [
          | raises m ↦ err (record { error = m; code = some "DELEGATION_ERROR"; retryable = false })
          | returns _ ↦ ok (build_result completed e w')
        ],
        e,
        w',
      )

-- ===== src/Delegation/Summary.antt =====
-- What `delegate` in mode DFS of dawn_kestrel/delegation/engine.py reports of a depth-first delegation.
use dawn_kestrel.Prelude.{ℕ, ◌+◌, ◌≤◌, String, [], ◌∷◌, returns, length, is_empty, ◌≡◌, refl, arith}
use dawn_kestrel.Core.Result.{ok}
use dawn_kestrel.Delegation.{completed, Children, new_context}
use dawn_kestrel.Delegation.Engine.{Config, Engine, spawn, signature, execute_dfs}
use dawn_kestrel.Delegation.Engine.Accounts.{execute_dfs-Accounted}
use dawn_kestrel.Delegation.Engine.Limit.{execute_dfs-le}
use dawn_kestrel.Delegation.Delegate.{DelegationResult, build_result, delegate_depth_first}

-- If `on_agent_spawn` never raises, and neither does the signature of a result, `delegate` of an engine
-- whose mode is DFS answers `Ok`, whatever it delegated before; every agent that it counts has left one
-- result or one error, it is a success if there are no errors, there is at most one agent more than
-- `max_total_agents`, and the report always says `completed`, with no depth reached and no iterations.
pub delegate_depth_first-DelegationResult :
    {R W : Type 0} (config : Config R W)
    → ((agent : String) (depth : ℕ) (v : W) → (spawn config agent depth v).0 ≡ returns tt)
    → ((r : R) → (s : String) × (signature config (r ∷ []) ≡ returns s))
    → (agent prompt : String) (cs : Children) (before : Engine R) (w : W)
    → (d : DelegationResult R) × ((delegate_depth_first config agent prompt cs before w).0 ≡ ok d)
      × (length d.results + length d.errors ≡ d.total_agents)
      × (d.total_agents ≤ config.budget.max_total_agents + 1)
      × (d.success ≡ is_empty d.errors)
      × (d.stop_reason ≡ completed)
      × (d.max_depth_reached ≡ 0)
      × (d.iterations ≡ 0)
unfolding delegate_depth_first build_result new_context
delegate_depth_first-DelegationResult config quiet steady agent prompt cs before w =
    let e0 : Engine _ = record before { context = new_context } in
    let e = (execute_dfs config agent prompt cs e0 w).1 in
    let w' = (execute_dfs config agent prompt cs e0 w).2 in
    let (no_raise, a) = execute_dfs-Accounted config quiet steady agent prompt cs e0 w in
    let le = execute_dfs-le config agent prompt cs e0 w (omega arith) in
    (
      build_result config completed e w',
      rw (no_raise, delegate_depth_first) refl,
      omega (arith, a.answers, a.spawned),
      le,
      refl,
      refl,
      a.depth,
      a.iterations,
    )

-- ===== src/Delegation/Engine.antt =====
-- dawn_kestrel/delegation/engine.py: the depth-first traversal of `DelegationEngine`. The runtime and the
-- callbacks act on a world `W`, whose clock tells the time since the start.
pub mod Depth
pub mod Accounts
pub mod Limit
use dawn_kestrel.Prelude.{
  ℕ, ◌+◌, ◌-◌, String, Bool, true, false, ◌&&◌, Option, none, some, List, [], ◌∷◌, ◌++◌, leb,
  Message, Outcome, returns, raises, if◌then◌else◌, get_last?, is_empty, length, ltb,
}
use dawn_kestrel.Core.Result.{Result, ok, err_code}
use dawn_kestrel.Delegation.Signature.{Evidence, compute_signature}
use dawn_kestrel.Delegation.{
  StopReason, completed, converged, budget_exhausted, depth_limit, breadth_limit, timeout, Budget,
  ConvergenceTracker, new_tracker, check_novelty, is_converged, Context, new_context, Children,
  no_more, child,
}

-- What the engine is made with. `view` is what a result shows of itself, and `digest` a hash.
pub record Config (R W : Type 0) : Type 0 where
  pub budget : Budget
  pub check_convergence : Bool
  pub on_agent_spawn : Option (String → ℕ → W → Outcome (Unit {0}) × W)
  pub on_agent_complete : Option (String → R → W → Outcome (Unit {0}) × W)
  pub execute_agent : (agent_name prompt : String) → W → Outcome R × W
  pub evidence_keys : List String
  pub view : R → Evidence
  pub digest : List String → String
  pub elapsed : W → ℕ

-- `_context` and `_convergence`
pub record Engine (R : Type 0) : Type 0 where
  pub context : Context R
  pub convergence : ConvergenceTracker

module _ {R W : Type 0} (config : Config R W) where
  -- `on_agent_spawn`, which is given an id that begins with the agent's name
  unfoldable pub spawn : String → ℕ → W → Outcome (Unit {0}) × W
  spawn agent depth w = elim config.on_agent_spawn [
    | none ↦ (returns tt, w)
    | some f ↦ f agent depth w
  ]

  complete : String → R → W → Outcome R × W
  complete agent r w = elim config.on_agent_complete [
    | none ↦ (returns r, w)
    | some f ↦
        let (o, w') = f agent r w in (elim o [ returns _ ↦ returns r | raises e ↦ raises e ], w')
  ]

  -- the `try` block: the exception is caught, and is the answer
  unfoldable pub attempted : String → String → W → Outcome R × W
  unfolding complete
  attempted agent prompt w =
      let (o, w') = config.execute_agent agent prompt w in
      elim o [ returns r ↦ complete agent r w' | raises e ↦ (raises e, w') ]

  unfoldable pub counted_in : Context R → Context R
  counted_in c = record c {
    total_agents_spawned = c.total_agents_spawned + 1;
    active_agents = c.active_agents + 1;
  }

  unfoldable pub counted_out : Context R → Context R
  counted_out c = record c {
    active_agents = c.active_agents - 1;
    completed_agents = c.completed_agents + 1;
  }

  -- `_execute_agent`: raises what `on_agent_spawn` raises, and answers with the result or the exception
  unfoldable pub run_agent : String → String → Engine R → W → Outcome (Outcome R) × Engine R × W
  unfolding spawn attempted counted_in counted_out
  run_agent agent prompt e w =
      let begun = counted_in e.context in
      let (spawned, w1) = spawn agent begun.current_depth w in
      elim spawned [
        | raises m ↦ (raises m, record e { context = begun }, w1)
        | returns _ ↦
            let (answer, w2) = attempted agent prompt w1 in
            (returns answer, record e { context = counted_out begun }, w2)
      ]

  abbrev pub signature : List R → Outcome String
  signature rs = compute_signature config.evidence_keys config.view config.digest rs

  -- the check of a new result, with what it raises
  unfoldable pub check_result : R → Engine R → Outcome (Unit {0}) × Engine R
  check_result r e =
      let (o, t) = check_novelty signature e.convergence (r ∷ []) in
      (elim o [ raises m ↦ raises m | returns _ ↦ returns tt ], record e { convergence = t })

  -- The result or the error is kept, and a result is checked for novelty, which can raise.
  unfoldable pub record_answer : Outcome R → Engine R → Outcome (Unit {0}) × Engine R
  unfolding check_result
  record_answer (raises m) e =
      (returns tt, record e { context = record e.context { errors = e.context.errors ++ m ∷ [] } })
  record_answer (returns r) e =
      let kept = record e {
        context = record e.context { results = e.context.results ++ r ∷ [] };
      } in
      if config.check_convergence then check_result r kept else (returns tt, kept)

  -- an agent, with its answer recorded: the lines at the root of a traversal and for each child
  unfoldable pub run_and_record : String → String → Engine R → W → Outcome (Unit {0}) × Engine R × W
  unfolding run_agent record_answer
  run_and_record agent prompt e w =
      let (o, e1, w1) = run_agent agent prompt e w in
      elim o [
        | raises m ↦ (raises m, e1, w1)
        | returns answer ↦ let (checked, e2) = record_answer answer e1 in (checked, e2, w1)
      ]

  unfoldable pub check_boundaries : Engine R → W → Option StopReason
  check_boundaries e w =
      let b = config.budget in
      if leb b.max_iterations e.context.iteration_count
      then some budget_exhausted
      else if leb b.max_wall_time (config.elapsed w)
      then some timeout
      else if leb b.max_depth e.context.current_depth
      then some depth_limit
      else if leb b.max_total_agents e.context.total_agents_spawned
      then some breadth_limit
      else if is_converged e.convergence b.stagnation_threshold
      then some converged
      else none

  abbrev pub at_boundary : Engine R → W → Bool
  at_boundary e w = elim (check_boundaries e w) [ none ↦ false | some _ ↦ true ]

  abbrev pub deeper : Engine R → Engine R
  deeper e = record e { context = record e.context { current_depth = e.context.current_depth + 1 } }

  abbrev pub shallower : Engine R → Engine R
  shallower e = record e {
    context = record e.context { current_depth = e.context.current_depth - 1 };
  }

  -- after an agent of `_execute_dfs`: the boundaries, the depth, and the loop over its children
  unfoldable pub descend : Bool → (Engine R → W → Engine R × W) → Engine R → W → Engine R × W
  unfolding check_boundaries
  descend childless loop e w =
      if at_boundary e w
      then (e, w)
      else if childless
      then (e, w)
      else if leb config.budget.max_depth (e.context.current_depth + 1)
      then (e, w)
      else let (e', w') = loop (deeper e) w in (shallower e', w')

  -- `_execute_dfs` with the loop over the children
  unfoldable pub visit :
      String
      → String
      → Bool
      → (Engine R → W → Engine R × W)
      → Engine R
      → W
      → Outcome (Unit {0}) × Engine R × W
  unfolding run_and_record descend
  visit agent prompt childless loop e w =
      let (o, e1, w1) = run_and_record agent prompt e w in
      elim o [
        | raises m ↦ (raises m, e1, w1)
        | returns _ ↦ let (e2, w2) = descend childless loop e1 w1 in (returns tt, e2, w2)
      ]

  -- the `except` of the loop over children
  unfoldable pub caught : Outcome (Unit {0}) × Engine R × W → Bool × Engine R × W
  caught (returns _, e, w) = (true, e, w)
  caught (raises m, e, w) =
      (false, record e { context = record e.context { errors = e.context.errors ++ m ∷ [] } }, w)

  -- The body of the loop for one child: true if the test of convergence is reached. A child that has
  -- children is run, and then once more as the root of its own traversal.
  unfoldable pub branch :
      String → String → Bool → (Engine R → W → Engine R × W) → Engine R → W → Bool × Engine R × W
  unfolding run_and_record visit caught
  branch agent prompt childless loop e w =
      let (o, e1, w1) = run_and_record agent prompt e w in
      elim o [
        | raises m ↦ caught (raises m, e1, w1)
        | returns _ ↦
            if childless then (true, e1, w1) else caught (visit agent prompt childless loop e1 w1)
      ]

  abbrev pub or_else : Option String → String → String
  or_else none d = d
  or_else (some s) d = s

  abbrev pub childless : Children → Bool
  childless no_more = true
  childless _ = false

  unfoldable pub each_child : Children → Engine R → W → Engine R × W
  unfolding branch check_boundaries
  each_child no_more e w = (e, w)
  each_child (child agent prompt children after) e w =
      let (tested, e1, w1) =
        branch (or_else agent "general") (or_else prompt "") (childless children)
          (each_child children) e w in
      let rest = each_child after e1 w1 in
      if leb config.budget.max_total_agents e.context.total_agents_spawned
      then (e, w)
      else if at_boundary e w
      then (e, w)
      else if tested
          && config.check_convergence
          && is_converged e1.convergence config.budget.stagnation_threshold
      then (e1, w1)
      else rest

  -- `_execute_dfs`
  unfoldable pub execute_dfs :
      String → String → Children → Engine R → W → Outcome (Unit {0}) × Engine R × W
  unfolding visit each_child
  execute_dfs agent prompt children e w =
      visit agent prompt (childless children) (each_child children) e w

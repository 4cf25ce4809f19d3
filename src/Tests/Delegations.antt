-- ===== src/Tests/Delegations.antt =====
-- dawn_kestrel/delegation, over a world that is the list of the agents that ran
use dawn_kestrel.Prelude.{
  ◌≢◌, false, ◌+◌, ◌≤◌, ◌≡◌, refl, lookup, String, true, none, some, List, [], ◌∷◌, ◌++◌, length,
  is_empty, leb, text, Outcome, returns, raises, if◌then◌else◌, arith, string_eq, option_eq, ◌==◌,
}
use dawn_kestrel.Core.Result.{ok}
use dawn_kestrel.Delegation.{
  Budget, new_context, note, noted, check_novelty, is_converged, Children, no_more, child,
  completed,
}
use dawn_kestrel.Delegation.Signature.{
  plain, with_metadata, sequence, value_to_str, parts_of, evidence_parts, all_parts,
  compute_signature,
}
use dawn_kestrel.Delegation.Engine.{
  Config, Engine, spawn, run_agent, check_result, record_answer, run_and_record, signature,
  check_boundaries, descend, visit, caught, branch, each_child, execute_dfs, attempted, counted_in,
  counted_out,
}
use dawn_kestrel.Delegation.Engine.Accounts.{Accounted, execute_dfs-Accounted}
use dawn_kestrel.Delegation.Engine.Limit.{spawned, execute_dfs-le}
use dawn_kestrel.Delegation.Delegate.{
  DelegationResult, new_engine, build_result, delegate_depth_first,
}
use dawn_kestrel.Delegation.Policy.{
  Policy, go_on, delegate_to, done, delegate_with_policy, policy_loop, turn, end_turn, obey,
  run_subtasks, then_next, after_agent, keep_answer, accumulate, first_context, answer_of,
}
use dawn_kestrel.Delegation.Policy.Turns.{delegate_with_policy-returns}
use dawn_kestrel.Delegation.Policy.Counts.{delegate_with_policy-DelegationResult}
use dawn_kestrel.Delegation.Summary.{delegate_depth_first-DelegationResult}

abbrev Log : Type 0
Log = List String

abbrev budget : Budget
budget = record {
  max_depth = 3;
  max_breadth = 5;
  max_total_agents = 2;
  max_wall_time = 300000;
  max_iterations = 10;
  stagnation_threshold = 3;
  max_concurrent = 3;
}

-- an agent answers with its prompt, and `broken` raises
abbrev run : String → String → Log → Outcome String × Log
run agent prompt log =
    (if agent == "broken" then raises (text "no model") else returns prompt, log ++ agent ∷ [])

abbrev first : List String → String
first [] = ""
first (s ∷ _) = s

abbrev config : Config String Log
config = record {
  budget = budget;
  check_convergence = true;
  on_agent_spawn = none;
  on_agent_complete = none;
  execute_agent = run;
  evidence_keys = "files" ∷ [];
  view = λ s. plain s;
  digest = first;
  elapsed = λ log. length log;
}

-- one child, which has a child of its own
abbrev tree : Children
tree = child (some "explore") (some "look") (child none none no_more no_more) no_more

abbrev start : Engine String
start = new_engine config

abbrev final : Outcome (Unit {0}) × Engine String × Log
final = execute_dfs config "main" "go" tree start []

-- the child runs twice, and three agents run where two are allowed
runs_twice : final.2 ≡ "main" ∷ "explore" ∷ "explore" ∷ []
unfolding execute_dfs visit each_child branch run_and_record run_agent record_answer check_result
    check_boundaries descend new_engine new_context is_converged check_novelty noted note caught
    spawn compute_signature all_parts evidence_parts
runs_twice = refl

steady : (s : String) → (sig : String) × (signature config (s ∷ []) ≡ returns sig)
unfolding compute_signature all_parts evidence_parts
steady s = (s, refl)

execute_dfs-Accounted_example : (final.0 ≡ returns tt) × Accounted start final.1
unfolding spawn
execute_dfs-Accounted_example =
    execute_dfs-Accounted config (λ agent depth log. refl) steady "main" "go" tree start []

execute_dfs-le_example : spawned config final.1 ≤ 2 + 1
unfolding new_engine new_context
execute_dfs-le_example = execute_dfs-le config "main" "go" tree start [] (omega arith)

delegate_depth_first-DelegationResult_example :
    (d : DelegationResult String) × ((delegate_depth_first config "main" "go" tree final.1 []).0
      ≡ ok d)
    × (length d.results + length d.errors ≡ d.total_agents)
    × (d.total_agents ≤ 2 + 1)
    × (d.success ≡ is_empty d.errors)
    × (d.stop_reason ≡ completed)
    × (d.max_depth_reached ≡ 0)
    × (d.iterations ≡ 0)
unfolding spawn
delegate_depth_first-DelegationResult_example =
    delegate_depth_first-DelegationResult config (λ agent depth log. refl) steady "main" "go" tree
      final.1 []

-- The files that an agent names are a list of dictionaries, which Python cannot sort.
abbrev unsortable : Config String Log
unsortable = record config {
  view = λ s.
      with_metadata
        ((
          "files",
          sequence (raises (text "'<' not supported between instances of 'dict' and 'dict'")),
        )
          ∷ [])
        none s;
}

abbrev raised : Engine String × Log
raised = each_child unsortable (child (some "explore") (some "look") no_more no_more) start []

-- one agent ran, and left a result and an error
two_answers :
    (raised.0.context.results ≡ "look" ∷ [])
    × (length raised.0.context.errors ≡ 1)
    × (raised.0.context.total_agents_spawned ≡ 1)
unfolding each_child branch run_and_record run_agent record_answer check_result check_boundaries
    new_engine new_context is_converged check_novelty noted caught spawn compute_signature all_parts
    evidence_parts parts_of value_to_str lookup
two_answers = (refl, refl, refl)

-- asks for two subtasks, then for one turn of the agent itself, then stops
abbrev plan : Policy String Log
plan c log =
    if leb 2 (length log) then (returns (if leb 3 (length log) then done else go_on), log) else (
      returns (
          delegate_to (
            record { agent = "explore"; prompt = "a" }
            ∷ record { agent = "broken"; prompt = "b" }
            ∷ [])),
      log,
    )

abbrev stubborn : Policy String Log
stubborn c log = (returns go_on, log)

delegate_with_policy-returns_example :
    delegate_with_policy config (some stubborn) "main" "go" [] ≢ none
delegate_with_policy-returns_example = delegate_with_policy-returns config stubborn "main" "go" []

abbrev report : DelegationResult String
report = record {
  success = false;
  stop_reason = completed;
  results = "a" ∷ "go" ∷ [];
  errors = text "no model" ∷ [];
  total_agents = 3;
  max_depth_reached = 0;
  elapsed = 3;
  iterations = 0;
  converged = false;
  stagnation_detected = false;
  final_novelty_signature = none;
}

reports :
    delegate_with_policy config (some plan) "main" "go" []
    ≡ some (ok report, "explore" ∷ "broken" ∷ "main" ∷ [])
unfolding delegate_with_policy policy_loop turn end_turn obey run_subtasks then_next after_agent
    keep_answer accumulate first_context answer_of build_result new_engine new_context run_agent
    spawn attempted counted_in counted_out is_converged
reports = refl

delegate_with_policy-DelegationResult_example :
    (length report.results + length report.errors ≡ report.total_agents)
    × (report.max_depth_reached ≡ 0)
unfolding spawn
delegate_with_policy-DelegationResult_example =
    delegate_with_policy-DelegationResult config (λ agent depth log. refl) plan "main" "go" []
      report ("explore" ∷ "broken" ∷ "main" ∷ []) reports

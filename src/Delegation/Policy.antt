-- ===== src/Delegation/Policy.antt =====
-- dawn_kestrel/delegation/engine.py: `delegate_with_policy`, and what it uses of
-- dawn_kestrel/policy/delegation.py. The policy is a parameter that acts on the world; of its context
-- the fields are here that the engine sets. The loop is on fuel, and `none` is its end.
pub mod Turns
pub mod Counts
use dawn_kestrel.Prelude.{
  ℕ, zero, suc, ◌+◌, String, Bool, true, false, Option, none, some, List, [], ◌∷◌, ◌++◌, leb,
  Message, text, Outcome, returns, raises, if◌then◌else◌,
}
use dawn_kestrel.Core.Result.{Error, Result, ok, err, err_code}
use dawn_kestrel.Delegation.{completed}
use dawn_kestrel.Delegation.Engine.{Config, Engine, run_agent}
use dawn_kestrel.Delegation.Delegate.{DelegationResult, build_result, new_engine}

pub record SubtaskProposal : Type 0 where
  pub agent : String
  pub prompt : String

-- `DelegationOutput`: the decision, with the subtasks of `DELEGATE`
pub data Decision : Type 0 where
  go_on : Decision
  delegate_to : List SubtaskProposal → Decision
  synthesize : Decision
  done : Decision

pub record PolicyContext (R : Type 0) : Type 0 where
  pub current_agent : String
  pub current_depth : ℕ
  pub iteration_count : ℕ
  pub accumulated_results : List R
  pub max_depth : ℕ
  pub max_iterations : ℕ
  pub max_seconds : ℕ
  pub stagnation_threshold : ℕ

abbrev pub Policy : Type 0 → Type 0 → Type 0
Policy R W = PolicyContext R → W → Outcome Decision × W

-- what the loop goes on with, or what is raised in it
abbrev pub State : Type 0 → Type 0 → Type 0
State R W = PolicyContext R × Engine R × W

module _ {R W : Type 0} (config : Config R W) where
  unfoldable pub keep_answer : Outcome R → Engine R → Engine R
  keep_answer (raises m) e = record e {
    context = record e.context { errors = e.context.errors ++ m ∷ [] };
  }
  keep_answer (returns r) e = record e {
    context = record e.context { results = e.context.results ++ r ∷ [] };
  }

  -- a result of a subtask goes to the policy as well
  unfoldable pub accumulate : Outcome R → PolicyContext R → PolicyContext R
  accumulate (raises m) c = c
  accumulate (returns r) c = record c { accumulated_results = c.accumulated_results ++ r ∷ [] }

  -- an agent, its answer kept; a raised exception ends the loop
  unfoldable pub after_agent :
      (PolicyContext R → Outcome R → PolicyContext R)
      → PolicyContext R
      → Outcome (Outcome R) × Engine R × W
      → Outcome (Unit {0}) × State R W
  unfolding keep_answer
  after_agent f c (raises m, e, w) = (raises m, (c, e, w))
  after_agent f c (returns answer, e, w) = (returns tt, (f c answer, keep_answer answer e, w))

  -- what is raised ends the loop over the subtasks
  unfoldable pub then_next :
      (State R W → Outcome (Unit {0}) × State R W)
      → Outcome (Unit {0}) × State R W
      → Outcome (Unit {0}) × State R W
  then_next next (raises m, s) = (raises m, s)
  then_next next (returns _, s) = next s

  -- the loop over the subtasks
  unfoldable pub run_subtasks : List SubtaskProposal → State R W → Outcome (Unit {0}) × State R W
  unfolding after_agent accumulate then_next
  run_subtasks [] s = (returns tt, s)
  run_subtasks (t ∷ ts) (c, e, w) =
      let rest =
        then_next (run_subtasks ts)
          (after_agent (λ c a. accumulate a c) c (run_agent config t.agent t.prompt e w)) in
      if leb c.max_depth c.current_depth then (returns tt, (c, e, w)) else rest

  -- the branches on a decision that does not stop the loop
  unfoldable pub obey : String → String → Decision → State R W → Outcome (Unit {0}) × State R W
  unfolding run_subtasks after_agent
  obey agent prompt (delegate_to ts) s =
      let (o, (c, e, w)) = run_subtasks ts s in
      (
        o,
        (
          elim o [ raises _ ↦ c | returns _ ↦ record c { current_depth = c.current_depth + 1 } ],
          e,
          w,
        ),
      )
  obey agent prompt go_on (c, e, w) = after_agent (λ c a. c) c (run_agent config agent prompt e w)
  obey agent prompt _ s = (returns tt, s)

  -- the end of a turn, and what goes on after it
  unfoldable pub end_turn :
      ℕ
      → (State R W → Option (Outcome (Unit {0}) × State R W))
      → Outcome (Unit {0}) × State R W
      → Option (Outcome (Unit {0}) × State R W)
  end_turn iteration next (raises m, s) = some (raises m, s)
  end_turn iteration next (returns _, (c, e, w)) =
      let counted = record c { iteration_count = iteration } in
      let rest = next (counted, e, w) in
      if leb config.budget.max_iterations (iteration + 1)
      then some (returns tt, (counted, e, w))
      else rest

  -- a turn, on the output of the policy
  unfoldable pub turn :
      String
      → String
      → ℕ
      → (State R W → Option (Outcome (Unit {0}) × State R W))
      → Outcome Decision
      → State R W
      → Option (Outcome (Unit {0}) × State R W)
  unfolding obey end_turn
  turn agent prompt iteration next (raises m) s = some (raises m, s)
  turn agent prompt iteration next (returns done) s = some (returns tt, s)
  turn agent prompt iteration next (returns decision) s =
      end_turn iteration next (obey agent prompt decision s)

  -- the `while` loop, from its turn `iteration`
  unfoldable pub policy_loop :
      Policy R W
      → String
      → String
      → (fuel iteration : ℕ) → State R W
      → Option (Outcome (Unit {0}) × State R W)
  unfolding turn
  policy_loop policy agent prompt zero iteration s = none
  policy_loop policy agent prompt (suc fuel) iteration (c, e, w) =
      let (output, w') = policy c w in
      turn agent prompt iteration (policy_loop policy agent prompt fuel (iteration + 1)) output
        (c, e, w')

  unfoldable pub first_context : String → PolicyContext R
  first_context agent = record {
    current_agent = agent;
    current_depth = 0;
    iteration_count = 0;
    accumulated_results = [];
    max_depth = config.budget.max_depth;
    max_iterations = config.budget.max_iterations;
    max_seconds = config.budget.max_wall_time;
    stagnation_threshold = config.budget.stagnation_threshold;
  }

  unfoldable pub answer_of : Outcome (Unit {0}) × State R W → Result (DelegationResult R) × W
  answer_of (raises m, (c, e, w)) =
      (err (record { error = m; code = some "DELEGATION_ERROR"; retryable = false }), w)
  answer_of (returns _, (c, e, w)) = (ok (build_result config completed e w), w)

  -- `policy or self.policy` is the first argument
  unfoldable pub delegate_with_policy :
      Option (Policy R W) → String → String → W → Option (Result (DelegationResult R) × W)
  unfolding policy_loop first_context answer_of
  delegate_with_policy none agent prompt w = some (
    err_code (text "No policy configured - pass policy to constructor or delegate_with_policy()")
        "POLICY_REQUIRED",
    w,
  )
  delegate_with_policy (some policy) agent prompt w =
      elim (policy_loop policy agent prompt (suc config.budget.max_iterations) 0
        (first_context agent, new_engine config, w)) [ none ↦ none | some x ↦ some (answer_of x) ]

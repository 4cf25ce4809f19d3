-- ===== src/Delegation/Policy/Counts.antt =====
-- What `delegate_with_policy` of dawn_kestrel/delegation/engine.py has counted when it ends.
use dawn_kestrel.Prelude.{
  ℕ, zero, suc, ◌+◌, String, Option, none, some, List, [], ◌∷◌, leb, length, length-append, Outcome,
  returns, raises, ◌≡◌, refl, arith, inl, inr, Bool-cases,
}
use dawn_kestrel.Core.Result.{Result, ok}
use dawn_kestrel.Delegation.{completed, new_context}
use dawn_kestrel.Delegation.Engine.{
  Config, Engine, run_agent, spawn, attempted, counted_in, counted_out,
}
use dawn_kestrel.Delegation.Engine.Accounts.{Accounted, same, chain, run_agent_quiet}
use dawn_kestrel.Delegation.Delegate.{DelegationResult, build_result, new_engine}
use dawn_kestrel.Delegation.Policy.{
  SubtaskProposal, Decision, go_on, delegate_to, synthesize, done, PolicyContext, Policy, State,
  keep_answer, accumulate, after_agent, then_next, run_subtasks, obey, end_turn, turn, policy_loop,
  first_context, answer_of, delegate_with_policy,
}

module _ {R W : Type 0} (config : Config R W)
    (quiet : (agent : String) (depth : ℕ) (v : W)
      → (spawn config agent depth v).0 ≡ returns tt) where
  kept_answer :
      (answer : Outcome R) (e : Engine R)
      → Accounted e (
          keep_answer config answer
            (record e { context = counted_out config (counted_in config e.context) }))
  unfolding keep_answer counted_in counted_out
  kept_answer (raises m) e = record {
    depth = refl;
    active = omega arith;
    spawned = omega arith;
    answers = omega (arith, length-append e.context.errors (m ∷ []));
    iterations = refl;
  }
  kept_answer (returns r) e = record {
    depth = refl;
    active = omega arith;
    spawned = omega arith;
    answers = omega (arith, length-append e.context.results (r ∷ []));
    iterations = refl;
  }

  abbrev engine_of : Outcome (Unit {0}) × State R W → Engine R
  engine_of (o, (c, e, w)) = e

  after_agent_accounted :
      (f : PolicyContext R → Outcome R → PolicyContext R) (c : PolicyContext R)
      (agent prompt : String) (e : Engine R) (w : W)
      → Accounted e (engine_of (after_agent config f c (run_agent config agent prompt e w)))
  unfolding after_agent
  after_agent_accounted f c agent prompt e w = rw (run_agent_quiet config quiet agent prompt e w) (
      kept_answer (attempted config agent prompt (spawn config agent e.context.current_depth w).1).0
        e)

  next_accounted :
      (next : State R W → Outcome (Unit {0}) × State R W) (e : Engine R)
      (x : Outcome (Unit {0}) × State R W)
      → Accounted e (engine_of x)
      → ((s : State R W) → Accounted s.1 (engine_of (next s)))
      → Accounted e (engine_of (then_next config next x))
  unfolding then_next
  next_accounted next e (raises m, (c, f, w)) h k = h
  next_accounted next e (returns _, (c, f, w)) h k =
      chain config quiet e f (engine_of (next (c, f, w))) h (k (c, f, w))

  subtasks_accounted :
      (ts : List SubtaskProposal) (s : State R W)
      → Accounted s.1 (engine_of (run_subtasks config ts s))
  unfolding run_subtasks
  subtasks_accounted [] (c, e, w) = same config quiet e
  subtasks_accounted (t ∷ ts) (c, e, w) =
      let first = after_agent_accounted (λ c a. accumulate config a c) c t.agent t.prompt e w in
      let x =
        after_agent config (λ c a. accumulate config a c) c
          (run_agent config t.agent t.prompt e w) in
      elim (Bool-cases (leb c.max_depth c.current_depth)) [
        | inl deep ↦ rw deep (same config quiet e)
        | inr fine ↦
            rw fine (next_accounted (run_subtasks config ts) e x first (subtasks_accounted ts))
      ]

  obey_accounted :
      (agent prompt : String) (d : Decision) (s : State R W)
      → Accounted s.1 (engine_of (obey config agent prompt d s))
  unfolding obey
  obey_accounted agent prompt (delegate_to ts) s = subtasks_accounted ts s
  obey_accounted agent prompt go_on (c, e, w) = after_agent_accounted (λ c a. c) c agent prompt e w
  obey_accounted agent prompt synthesize s = same config quiet s.1
  obey_accounted agent prompt done s = same config quiet s.1

  -- the engine that an answer of the loop ends with, if there is one
  abbrev Ends : Engine R → Option (Outcome (Unit {0}) × State R W) → Type 0
  Ends e none = Unit
  Ends e (some x) = Accounted e (engine_of x)

  Ends-chain :
      (e f : Engine R) (x : Option (Outcome (Unit {0}) × State R W))
      → Accounted e f
      → Ends f x
      → Ends e x
  Ends-chain e f none h k = tt
  Ends-chain e f (some x) h k = chain config quiet e f (engine_of x) h k

  end_turn-Ends :
      (iteration : ℕ) (next : State R W → Option (Outcome (Unit {0}) × State R W)) (e : Engine R)
      (x : Outcome (Unit {0}) × State R W)
      → Accounted e (engine_of x)
      → ((s : State R W) → Ends s.1 (next s))
      → Ends e (end_turn config iteration next x)
  unfolding end_turn
  end_turn-Ends iteration next e (raises m, (c, f, w)) h k = h
  end_turn-Ends iteration next e (returns _, (c, f, w)) h k =
      let counted = record c { iteration_count = iteration } in
      elim (Bool-cases (leb config.budget.max_iterations (iteration + 1))) [
        | inl over ↦ rw over h
        | inr on ↦ rw on (Ends-chain e f (next (counted, f, w)) h (k (counted, f, w)))
      ]

  turn-Ends :
      (agent prompt : String) (iteration : ℕ)
      (next : State R W → Option (Outcome (Unit {0}) × State R W)) (output : Outcome Decision)
      (s : State R W)
      → ((s : State R W) → Ends s.1 (next s))
      → Ends s.1 (turn config agent prompt iteration next output s)
  unfolding turn
  turn-Ends agent prompt iteration next (raises m) s k = same config quiet s.1
  turn-Ends agent prompt iteration next (returns done) s k = same config quiet s.1
  turn-Ends agent prompt iteration next (returns go_on) s k =
      end_turn-Ends iteration next s.1 (obey config agent prompt go_on s)
        (obey_accounted agent prompt go_on s) k
  turn-Ends agent prompt iteration next (returns (delegate_to ts)) s k =
      end_turn-Ends iteration next s.1 (obey config agent prompt (delegate_to ts) s)
        (obey_accounted agent prompt (delegate_to ts) s) k
  turn-Ends agent prompt iteration next (returns synthesize) s k =
      end_turn-Ends iteration next s.1 (obey config agent prompt synthesize s)
        (obey_accounted agent prompt synthesize s) k

  policy_loop-Ends :
      (policy : Policy R W) (agent prompt : String) (fuel iteration : ℕ) (s : State R W)
      → Ends s.1 (policy_loop config policy agent prompt fuel iteration s)
  unfolding policy_loop
  policy_loop-Ends policy agent prompt zero iteration s = tt
  policy_loop-Ends policy agent prompt (suc fuel) iteration (c, e, w) =
      turn-Ends agent prompt iteration (policy_loop config policy agent prompt fuel (iteration + 1))
        (policy c w).0 (c, e, (policy c w).1)
        (policy_loop-Ends policy agent prompt fuel (iteration + 1))

  counted_answer :
      (x : Option (Outcome (Unit {0}) × State R W)) (d : DelegationResult R) (v : W)
      → Ends (new_engine config) x
      → (elim x as (λ _. Option (Result (DelegationResult R) × W)) [
        | none ↦ none
        | some y ↦ some (answer_of config y)
      ])
        ≡ some (ok d, v)
      → (length d.results + length d.errors ≡ d.total_agents) × (d.max_depth_reached ≡ 0)
  unfolding answer_of build_result new_engine new_context
  counted_answer none d v h e = absurd (cc)
  counted_answer (some (raises m, (c, f, w))) d v h e = absurd (cc)
  counted_answer (some (returns _, (c, f, w))) d v h e =
      let eq : build_result config completed f w ≡ d = cc in
      rw (← eq) (omega (arith, h.answers, h.spawned), h.depth)

  -- If `on_agent_spawn` never raises, every agent that an `Ok` of `delegate_with_policy` counts has left
  -- one result or one error, and the report says that no depth was reached.
  pub delegate_with_policy-DelegationResult :
      (policy : Policy R W) (agent prompt : String) (w : W) (d : DelegationResult R) (v : W)
      → delegate_with_policy config (some policy) agent prompt w ≡ some (ok d, v)
      → (length d.results + length d.errors ≡ d.total_agents) × (d.max_depth_reached ≡ 0)
  unfolding delegate_with_policy
  delegate_with_policy-DelegationResult policy agent prompt w d v e =
      counted_answer
        (policy_loop config policy agent prompt (suc config.budget.max_iterations) 0
          (first_context config agent, new_engine config, w))
        d v
        (policy_loop-Ends policy agent prompt (suc config.budget.max_iterations) 0
          (first_context config agent, new_engine config, w))
        e

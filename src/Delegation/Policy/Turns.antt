-- ===== src/Delegation/Policy/Turns.antt =====
-- That `delegate_with_policy` of dawn_kestrel/delegation/engine.py ends, and what it has counted then.
use dawn_kestrel.Prelude.{
  ℕ, zero, suc, ◌+◌, ◌≤◌, ◌<◌, String, Option, none, some, leb, Outcome, returns, raises, ◌≢◌, refl,
  arith, inl, inr, Bool-cases,
}
use dawn_kestrel.Core.Result.{Result}
use dawn_kestrel.Delegation.Engine.{Config}
use dawn_kestrel.Delegation.Delegate.{DelegationResult, new_engine}
use dawn_kestrel.Delegation.Policy.{
  Decision, go_on, delegate_to, synthesize, done, Policy, State, obey, end_turn, turn, policy_loop,
  first_context, answer_of, delegate_with_policy,
}

module _ {R W : Type 0} (config : Config R W) where
  -- what goes on after a turn gives an answer where another turn is allowed
  abbrev GoesOn : ℕ → (State R W → Option (Outcome (Unit {0}) × State R W)) → Type 0
  GoesOn iteration next =
      (s : State R W) → iteration + 1 < config.budget.max_iterations → next s ≢ none

  end_turn_some :
      (iteration : ℕ) (next : State R W → Option (Outcome (Unit {0}) × State R W))
      (x : Outcome (Unit {0}) × State R W)
      → GoesOn iteration next
      → end_turn config iteration next x ≢ none
  unfolding end_turn
  end_turn_some iteration next (raises m, s) h = λ e. cc
  end_turn_some iteration next (returns _, (c, e, w)) h =
      elim (Bool-cases (leb config.budget.max_iterations (iteration + 1))) [
        | inl over ↦ rw over (λ e. cc)
        | inr on ↦ rw on (h (record c { iteration_count = iteration }, e, w) (ground arith))
      ]

  turn_some :
      (agent prompt : String) (iteration : ℕ)
      (next : State R W → Option (Outcome (Unit {0}) × State R W)) (output : Outcome Decision)
      (s : State R W)
      → GoesOn iteration next
      → turn config agent prompt iteration next output s ≢ none
  unfolding turn
  turn_some agent prompt iteration next (raises m) s h = λ e. cc
  turn_some agent prompt iteration next (returns done) s h = λ e. cc
  turn_some agent prompt iteration next (returns go_on) s h =
      end_turn_some iteration next (obey config agent prompt go_on s) h
  turn_some agent prompt iteration next (returns (delegate_to ts)) s h =
      end_turn_some iteration next (obey config agent prompt (delegate_to ts) s) h
  turn_some agent prompt iteration next (returns synthesize) s h =
      end_turn_some iteration next (obey config agent prompt synthesize s) h

  policy_loop_some :
      (policy : Policy R W) (agent prompt : String) (fuel iteration : ℕ) (s : State R W)
      → 1 ≤ fuel
      → config.budget.max_iterations ≤ fuel + iteration
      → policy_loop config policy agent prompt fuel iteration s ≢ none
  unfolding policy_loop
  policy_loop_some policy agent prompt zero iteration s h le = omega arith
  policy_loop_some policy agent prompt (suc fuel) iteration (c, e, w) h le =
      turn_some agent prompt iteration (policy_loop config policy agent prompt fuel (iteration + 1))
        (policy c w).0 (c, e, (policy c w).1)
        (λ s lt.
          policy_loop_some policy agent prompt fuel (iteration + 1) s (omega arith) (omega arith))

  answered :
      (x : Option (Outcome (Unit {0}) × State R W))
      → x ≢ none
      → (elim x as (λ _. Option (Result (DelegationResult R) × W)) [
        | none ↦ none
        | some y ↦ some (answer_of config y)
      ])
        ≢ none
  answered none h = λ e. h refl
  answered (some y) h = λ e. cc

  -- With a policy `delegate_with_policy` always ends, whatever the policy, the agents and the callbacks
  -- do: one turn more than `max_iterations` is enough.
  pub delegate_with_policy-returns :
      (policy : Policy R W) (agent prompt : String) (w : W)
      → delegate_with_policy config (some policy) agent prompt w ≢ none
  unfolding delegate_with_policy
  delegate_with_policy-returns policy agent prompt w e =
      answered
        (policy_loop config policy agent prompt (suc config.budget.max_iterations) 0
          (first_context config agent, new_engine config, w))
        (policy_loop_some policy agent prompt (suc config.budget.max_iterations) 0
          (first_context config agent, new_engine config, w) (omega arith) (omega arith))
        e

-- ===== src/Delegation/Engine/Accounts.antt =====
-- The counters of a depth-first delegation (dawn_kestrel/delegation/engine.py).
use dawn_kestrel.Prelude.{
  ℕ, ◌+◌, String, Bool, true, false, [], ◌∷◌, ◌++◌, length, length-append, Outcome, returns, raises,
  ◌≡◌, refl, ◌∙◌, arith, sym, subst, if◌then◌else◌,
}
use dawn_kestrel.Delegation.{Children, ConvergenceTracker, noted, check_novelty}
use dawn_kestrel.Delegation.Engine.{
  Config, Engine, spawn, attempted, counted_in, counted_out, run_agent, signature, check_result,
  record_answer, run_and_record, deeper, shallower, visit, caught, childless, each_child,
  execute_dfs,
}
use dawn_kestrel.Delegation.Engine.Depth.{visit_Rel, each_child_Rel}

-- From `e` to `f` the depth and the number of active agents are as they were, and each agent that was
-- spawned has completed and left one result or one error.
pub record Accounted {R : Type 0} (e f : Engine R) : Type 0 where
  pub depth : f.context.current_depth ≡ e.context.current_depth
  pub active : f.context.active_agents ≡ e.context.active_agents
  pub spawned :
      f.context.total_agents_spawned + e.context.completed_agents
      ≡ e.context.total_agents_spawned + f.context.completed_agents
  pub answers :
      length f.context.results + length f.context.errors + e.context.completed_agents
      ≡ length e.context.results + length e.context.errors + f.context.completed_agents
  pub iterations : f.context.iteration_count ≡ e.context.iteration_count

module _ {R W : Type 0} (config : Config R W)
    (quiet : (agent : String) (depth : ℕ) (v : W)
      → (spawn config agent depth v).0 ≡ returns tt) where
  pub same : (e : Engine R) → Accounted e e
  same e = record { depth = refl; active = refl; spawned = refl; answers = refl; iterations = refl }

  pub chain : (e f g : Engine R) → Accounted e f → Accounted f g → Accounted e g
  chain e f g h k = record {
    depth = k.depth ∙ h.depth;
    active = k.active ∙ h.active;
    spawned = omega (arith, h.spawned, k.spawned);
    answers = omega (arith, h.answers, k.answers);
    iterations = k.iterations ∙ h.iterations;
  }

  nested : (e f : Engine R) → Accounted (deeper config e) f → Accounted e (shallower config f)
  nested e f h = record {
    depth = omega (arith, h.depth);
    active = h.active;
    spawned = h.spawned;
    answers = h.answers;
    iterations = h.iterations;
  }

  pub run_agent_quiet :
      (agent prompt : String) (e : Engine R) (w : W)
      → let w1 = (spawn config agent e.context.current_depth w).1 in
        run_agent config agent prompt e w ≡ (
          returns (attempted config agent prompt w1).0,
          record e { context = counted_out config (counted_in config e.context) },
          (attempted config agent prompt w1).1,
        )
  unfolding run_agent counted_in
  run_agent_quiet agent prompt e w = rw (quiet agent e.context.current_depth w, run_agent)

  caught_returns :
      (x : Outcome (Unit {0}) × Engine R × W) → x.0 ≡ returns tt → (caught config x).1 ≡ x.1
  unfolding caught
  caught_returns (returns _, e, w) h = refl
  caught_returns (raises m, e, w) h = absurd (cc)

module _ {R W : Type 0} (config : Config R W)
    (quiet : (agent : String) (depth : ℕ) (v : W) → (spawn config agent depth v).0 ≡ returns tt)
    (steady : (r : R) → (s : String) × (signature config (r ∷ []) ≡ returns s)) where
  noted_returns :
      (t : ConvergenceTracker) (o : Outcome String) (s : String)
      → o ≡ returns s
      → (elim (noted t o).0 as (λ _. Outcome (Unit {0})) [
        | raises m ↦ raises m
        | returns _ ↦ returns tt
      ])
        ≡ returns tt
  unfolding noted
  noted_returns t (returns x) s h = refl
  noted_returns t (raises m) s h = absurd (cc)

  checks :
      (b : Bool) (r : R) (e f : Engine R)
      → Accounted e f
      → let x = if b then check_result config r f else (returns tt, f) in
        (x.0 ≡ returns tt) × Accounted e x.1
  unfolding check_result check_novelty
  checks true r e f h =
      let (s, known) = steady r in
      (
        noted_returns f.convergence (signature config (r ∷ [])) s known,
        record {
          depth = h.depth;
          active = h.active;
          spawned = h.spawned;
          answers = h.answers;
          iterations = h.iterations;
        },
      )
  checks false r e f h = (refl, h)

  -- an answer is recorded, and nothing is raised
  pub kept :
      (answer : Outcome R) (e : Engine R)
      → let x =
          record_answer config answer
            (record e { context = counted_out config (counted_in config e.context) }) in
        (x.0 ≡ returns tt) × Accounted e x.1
  unfolding record_answer counted_in counted_out
  kept (raises m) e = (
    refl,
    record {
      depth = refl;
      active = omega arith;
      spawned = omega arith;
      answers = omega (arith, length-append e.context.errors (m ∷ []));
      iterations = refl;
    },
  )
  kept (returns r) e =
      let c = counted_out config (counted_in config e.context) in
      let more = length-append e.context.results (r ∷ []) in
      checks config.check_convergence r e
        (record e { context = record c { results = c.results ++ r ∷ [] } })
        (record {
          depth = refl;
          active = omega arith;
          spawned = omega arith;
          answers = omega (arith, more);
          iterations = refl;
        })

  recorded :
      (agent prompt : String) (e : Engine R) (w : W)
      → ((run_and_record config agent prompt e w).0 ≡ returns tt)
        × Accounted e (run_and_record config agent prompt e w).1
  unfolding run_and_record
  recorded agent prompt e w =
      subst
        (λ (x : Outcome (Outcome R) × Engine R × W).
          let y = elim x.0 as (λ _. Outcome (Unit {0}) × Engine R × W) [
            | raises m ↦ (raises m, x.1, x.2)
            | returns answer ↦ let (o, e2) = record_answer config answer x.1 in (o, e2, x.2)
          ] in
          (y.0 ≡ returns tt) × Accounted e y.1)
        (sym (run_agent_quiet config quiet agent prompt e w))
        (kept (attempted config agent prompt (spawn config agent e.context.current_depth w).1).0 e)

  ran :
      (agent prompt : String) (e : Engine R) (w : W)
      → Accounted e (caught config (run_and_record config agent prompt e w)).1
  ran agent prompt e w =
      let (no_raise, h) = recorded agent prompt e w in
      rw (caught_returns config quiet (run_and_record config agent prompt e w) no_raise) h

  visit_quiet :
      (agent prompt : String) (b : Bool) (loop : Engine R → W → Engine R × W) (e : Engine R) (w : W)
      → (visit config agent prompt b loop e w).0 ≡ returns tt
  unfolding visit
  visit_quiet agent prompt b loop e w = rw ((recorded agent prompt e w).0, visit) refl

  -- If `on_agent_spawn` never raises, and neither does the signature of a result, a depth-first
  -- traversal does not raise, comes back to the depth at which it began, leaves no agent active, and has
  -- for every agent that it spawned one result or one error.
  pub execute_dfs-Accounted :
      (agent prompt : String) (cs : Children) (e : Engine R) (w : W)
      → ((execute_dfs config agent prompt cs e w).0 ≡ returns tt)
        × Accounted e (execute_dfs config agent prompt cs e w).1
  unfolding execute_dfs
  execute_dfs-Accounted agent prompt cs e w =
      let x = visit config agent prompt (childless config cs) (each_child config cs) e w in
      let quiet_end = visit_quiet agent prompt (childless config cs) (each_child config cs) e w in
      (
        quiet_end,
        rw (caught_returns config quiet x quiet_end) at (
            visit_Rel config Accounted (same config quiet) (chain config quiet) ran
              (nested config quiet) agent prompt (childless config cs) (each_child config cs) e w
              (each_child_Rel config Accounted (same config quiet) (chain config quiet) ran
                (nested config quiet) cs)),
      )

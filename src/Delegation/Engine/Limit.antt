-- ===== src/Delegation/Engine/Limit.antt =====
-- How many agents a depth-first delegation spawns (dawn_kestrel/delegation/engine.py).
use dawn_kestrel.Prelude.{
  ℕ, ◌+◌, ◌≤◌, ◌<◌, String, Bool, true, false, ◌&&◌, leb, Outcome, returns, raises, if◌then◌else◌,
  ◌≡◌, refl, ◌∙◌, arith, inl, inr, Bool-cases,
}
use dawn_kestrel.Delegation.{Children, no_more, child, is_converged}
use dawn_kestrel.Delegation.Engine.{
  Config, Engine, counted_in, counted_out, run_agent, check_result, record_answer, run_and_record,
  at_boundary, deeper, descend, visit, caught, branch, or_else, childless, each_child, execute_dfs,
}

module _ {R W : Type 0} (config : Config R W) where
  abbrev pub spawned : Engine R → ℕ
  spawned e = e.context.total_agents_spawned

  abbrev pub most : ℕ
  most = config.budget.max_total_agents

  spawned-run_agent :
      (agent prompt : String) (e : Engine R) (w : W)
      → spawned (run_agent config agent prompt e w).1 ≡ spawned e + 1
  unfolding run_agent counted_in counted_out
  spawned-run_agent agent prompt e w = ground arith

  spawned-record_answer :
      (a : Outcome R) (e : Engine R) → spawned (record_answer config a e).1 ≡ spawned e
  unfolding record_answer check_result
  spawned-record_answer (raises m) e = refl
  spawned-record_answer (returns r) e = elim (Bool-cases config.check_convergence) [
    | inl on ↦ rw on refl
    | inr off ↦ rw off refl
  ]

  recorded :
      (x : Outcome (Outcome R) × Engine R × W)
      → spawned
          (elim x.0 as (λ _. Outcome (Unit {0}) × Engine R × W) [
            | raises m ↦ (raises m, x.1, x.2)
            | returns answer ↦
                let (checked, e2) = record_answer config answer x.1 in (checked, e2, x.2)
          ]).1
        ≡ spawned x.1
  recorded (raises m, e, w) = refl
  recorded (returns answer, e, w) = spawned-record_answer answer e

  spawned-run_and_record :
      (agent prompt : String) (e : Engine R) (w : W)
      → spawned (run_and_record config agent prompt e w).1 ≡ spawned e + 1
  unfolding run_and_record
  spawned-run_and_record agent prompt e w =
      recorded (run_agent config agent prompt e w) ∙ spawned-run_agent agent prompt e w

  -- a loop over children that spawns at most one agent too many
  abbrev Limited : (Engine R → W → Engine R × W) → Type 0
  Limited loop = (f : Engine R) (v : W) → spawned f ≤ most + 1 → spawned (loop f v).0 ≤ most + 1

  descend_limit :
      (b : Bool) (loop : Engine R → W → Engine R × W) (e : Engine R) (w : W)
      → Limited loop
      → spawned e ≤ most + 1
      → spawned (descend config b loop e w).0 ≤ most + 1
  unfolding descend
  descend_limit b loop e w h le = elim (Bool-cases (at_boundary config e w)) [
    | inl stop ↦ rw stop le
    | inr go ↦ elim (Bool-cases b) [
      | inl none_below ↦ rw (go, none_below) le
      | inr some_below ↦
          elim (Bool-cases (leb config.budget.max_depth (e.context.current_depth + 1))) [
            | inl deep ↦ rw (go, some_below, deep) le
            | inr fine ↦ rw (go, some_below, fine) (h (deeper config e) w le)
          ]
    ]
  ]

  visit_limit :
      (agent prompt : String) (b : Bool) (loop : Engine R → W → Engine R × W) (e : Engine R) (w : W)
      → Limited loop
      → spawned e ≤ most
      → spawned (visit config agent prompt b loop e w).1 ≤ most + 1
  unfolding visit
  visit_limit agent prompt b loop e w h le =
      let (o, f, v) = run_and_record config agent prompt e w in
      let count : spawned f ≡ spawned e + 1 = spawned-run_and_record agent prompt e w in
      go o f v (omega (arith, count))
    where
      go :
          (o : Outcome (Unit {0})) (f : Engine R) (v : W)
          → spawned f ≤ most + 1
          → spawned
              (elim o as (λ _. Outcome (Unit {0}) × Engine R × W) [
                | raises m ↦ (raises m, f, v)
                | returns _ ↦ let (e2, w2) = descend config b loop f v in (returns tt, e2, w2)
              ]).1
            ≤ most + 1
      go (raises m) f v k = k
      go (returns _) f v k = descend_limit b loop f v h k

  spawned-caught :
      (x : Outcome (Unit {0}) × Engine R × W) → spawned (caught config x).1 ≡ spawned x.1
  unfolding caught
  spawned-caught (returns _, e, w) = refl
  spawned-caught (raises m, e, w) = refl

  branch_limit :
      (agent prompt : String) (b : Bool) (loop : Engine R → W → Engine R × W) (e : Engine R) (w : W)
      → Limited loop
      → spawned e < most
      → spawned (branch config agent prompt b loop e w).1 ≤ most + 1
  unfolding branch
  branch_limit agent prompt b loop e w h lt =
      let (o, f, v) = run_and_record config agent prompt e w in
      let count : spawned f ≡ spawned e + 1 = spawned-run_and_record agent prompt e w in
      go o b f v (omega (arith, count))
    where
      go :
          (o : Outcome (Unit {0})) (b : Bool) (f : Engine R) (v : W)
          → spawned f ≤ most
          → spawned
              (elim o as (λ _. Bool × Engine R × W) [
                | raises m ↦ caught config (raises m, f, v)
                | returns _ ↦
                    if b then (true, f, v) else caught config (visit config agent prompt b loop f v)
              ]).1
            ≤ most + 1
      go (raises m) b f v k = rw (spawned-caught (raises m, f, v)) (omega arith)
      go (returns _) true f v k = omega arith
      go (returns _) false f v k =
          rw (spawned-caught (visit config agent prompt false loop f v))
            (visit_limit agent prompt false loop f v h k)

  each_child_limit :
      (cs : Children) (e : Engine R) (w : W)
      → spawned e ≤ most + 1
      → spawned (each_child config cs e w).0 ≤ most + 1
  unfolding each_child
  each_child_limit no_more e w le = le
  each_child_limit (child agent prompt children after) e w le =
      let b =
        branch config (or_else config agent "general") (or_else config prompt "")
          (childless config children) (each_child config children) e w in
      elim (Bool-cases (leb config.budget.max_total_agents e.context.total_agents_spawned)) [
        | inl full ↦ rw full le
        | inr room ↦
            let lt : spawned e < most = ground arith in
            let first : spawned b.1 ≤ most + 1 =
              branch_limit (or_else config agent "general") (or_else config prompt "")
                (childless config children) (each_child config children) e w
                (each_child_limit children) lt in
            elim (Bool-cases (at_boundary config e w)) [
              | inl stop ↦ rw (room, stop) le
              | inr go ↦
                  elim (Bool-cases (
                    b.0
                    && config.check_convergence
                    && is_converged b.1.convergence config.budget.stagnation_threshold)) [
                      | inl done ↦ rw (room, go, done) first
                      | inr on ↦ rw (room, go, on) (each_child_limit after b.1 b.2 first)
                    ]
            ]
      ]

  -- A depth-first traversal that begins with at most `max_total_agents` agents spawned ends with at most
  -- one more than that, whatever the tree and whatever the agents and the callbacks do.
  pub execute_dfs-le :
      (agent prompt : String) (cs : Children) (e : Engine R) (w : W)
      → spawned e ≤ most
      → spawned (execute_dfs config agent prompt cs e w).1 ≤ most + 1
  unfolding execute_dfs
  execute_dfs-le agent prompt cs e w le =
      visit_limit agent prompt (childless config cs) (each_child config cs) e w
        (each_child_limit cs) le

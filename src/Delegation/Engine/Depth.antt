-- ===== src/Delegation/Engine/Depth.antt =====
-- What every depth-first traversal of dawn_kestrel/delegation/engine.py keeps, by one induction on the
-- specification of the children.
use dawn_kestrel.Prelude.{
  ◌+◌, String, Bool, true, false, ◌&&◌, leb, Outcome, returns, raises, if◌then◌else◌, inl, inr,
  Bool-cases,
}
use dawn_kestrel.Delegation.{Children, no_more, child, is_converged}
use dawn_kestrel.Delegation.Engine.{
  Config, Engine, run_and_record, at_boundary, deeper, shallower, descend, visit, caught, branch,
  or_else, childless, each_child,
}

module _ {R W : Type 0} (config : Config R W) where
  module _ (Rel : Engine R → Engine R → Type 0) (same : (e : Engine R) → Rel e e)
      (chain : (e f g : Engine R) → Rel e f → Rel f g → Rel e g)
      (ran : (agent prompt : String) (e : Engine R) (w : W)
        → Rel e (caught config (run_and_record config agent prompt e w)).1)
      (nested : (e f : Engine R) → Rel (deeper config e) f → Rel e (shallower config f)) where
    descend_Rel :
        (b : Bool) (loop : Engine R → W → Engine R × W) (e : Engine R) (w : W)
        → ((f : Engine R) (v : W) → Rel f (loop f v).0)
        → Rel e (descend config b loop e w).0
    unfolding descend
    descend_Rel b loop e w h = elim (Bool-cases (at_boundary config e w)) [
      | inl stop ↦ rw stop (same e)
      | inr go ↦ elim (Bool-cases b) [
        | inl none_below ↦ rw (go, none_below) (same e)
        | inr some_below ↦
            elim (Bool-cases (leb config.budget.max_depth (e.context.current_depth + 1))) [
              | inl deep ↦ rw (go, some_below, deep) (same e)
              | inr fine ↦
                  rw (go, some_below, fine)
                    (nested e (loop (deeper config e) w).0 (h (deeper config e) w))
            ]
      ]
    ]

    visit_at :
        (b : Bool) (loop : Engine R → W → Engine R × W) (o : Outcome (Unit {0})) (e f : Engine R)
        (w : W)
        → ((f : Engine R) (v : W) → Rel f (loop f v).0)
        → Rel e (caught config (o, f, w)).1
        → Rel e
            (caught config (elim o as (λ _. Outcome (Unit {0}) × Engine R × W) [
              | raises m ↦ (raises m, f, w)
              | returns _ ↦ let (e2, w2) = descend config b loop f w in (returns tt, e2, w2)
            ])).1
    unfolding caught
    visit_at b loop (raises m) e f w h r = r
    visit_at b loop (returns _) e f w h r =
        chain e f (descend config b loop f w).0 r (descend_Rel b loop f w h)

    pub visit_Rel :
        (agent prompt : String) (b : Bool) (loop : Engine R → W → Engine R × W) (e : Engine R)
        (w : W)
        → ((f : Engine R) (v : W) → Rel f (loop f v).0)
        → Rel e (caught config (visit config agent prompt b loop e w)).1
    unfolding visit
    visit_Rel agent prompt b loop e w h =
        let (o, f, v) = run_and_record config agent prompt e w in
        visit_at b loop o e f v h (ran agent prompt e w)

    branch_at :
        (agent prompt : String) (b : Bool) (loop : Engine R → W → Engine R × W)
        (o : Outcome (Unit {0})) (e f : Engine R) (w : W)
        → ((f : Engine R) (v : W) → Rel f (loop f v).0)
        → Rel e (caught config (o, f, w)).1
        → Rel e
            (elim o as (λ _. Bool × Engine R × W) [
              | raises m ↦ caught config (raises m, f, w)
              | returns _ ↦
                  if b then (true, f, w) else caught config (visit config agent prompt b loop f w)
            ]).1
    unfolding caught
    branch_at agent prompt b loop (raises m) e f w h r = r
    branch_at agent prompt true loop (returns _) e f w h r = r
    branch_at agent prompt false loop (returns _) e f w h r =
        chain e f (caught config (visit config agent prompt false loop f w)).1 r
          (visit_Rel agent prompt false loop f w h)

    branch_Rel :
        (agent prompt : String) (b : Bool) (loop : Engine R → W → Engine R × W) (e : Engine R)
        (w : W)
        → ((f : Engine R) (v : W) → Rel f (loop f v).0)
        → Rel e (branch config agent prompt b loop e w).1
    unfolding branch
    branch_Rel agent prompt b loop e w h =
        let (o, f, v) = run_and_record config agent prompt e w in
        branch_at agent prompt b loop o e f v h (ran agent prompt e w)

    pub each_child_Rel : (cs : Children) (e : Engine R) (w : W) → Rel e (each_child config cs e w).0
    unfolding each_child
    each_child_Rel no_more e w = same e
    each_child_Rel (child agent prompt children after) e w =
        let b =
          branch config (or_else config agent "general") (or_else config prompt "")
            (childless config children) (each_child config children) e w in
        let first : Rel e b.1 =
          branch_Rel (or_else config agent "general") (or_else config prompt "")
            (childless config children) (each_child config children) e w
            (each_child_Rel children) in
        let rest : Rel e (each_child config after b.1 b.2).0 =
          chain e b.1 (each_child config after b.1 b.2).0 first (each_child_Rel after b.1 b.2) in
        elim (Bool-cases (leb config.budget.max_total_agents e.context.total_agents_spawned)) [
          | inl full ↦ rw full (same e)
          | inr room ↦ elim (Bool-cases (at_boundary config e w)) [
            | inl stop ↦ rw (room, stop) (same e)
            | inr go ↦
                elim (Bool-cases (
                  b.0
                  && config.check_convergence
                  && is_converged b.1.convergence config.budget.stagnation_threshold)) [
                    | inl done ↦ rw (room, go, done) first
                    | inr on ↦ rw (room, go, on) rest
                  ]
          ]
        ]

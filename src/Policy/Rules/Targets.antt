-- ===== src/Policy/Rules/Targets.antt =====
-- When `RulesPolicy` points an agent at a TODO.
use dawn_kestrel.Prelude.{
  ◌*◌, ◌<◌, ◌≡◌, refl, inl, inr, false, Option, none, some, List, [], ◌∷◌, Bool-cases, All, Text,
  arith,
}
use dawn_kestrel.Policy.{TodoItem, BudgetInfo, Constraint, Severity, PolicyInput}
use dawn_kestrel.Policy.Todos.{get_first_pending_todo}
use dawn_kestrel.Policy.Todos.First.{IsFirst, Chosen, get_first_pending_todo-Chosen}
use dawn_kestrel.Policy.Rules.{
  is_budget_exhausted, is_critical, is_budget_critical, has_hard_constraints,
  is_high_risk_situation, minimal, budget_exhausted_proposal, approval_request_proposal,
  for_pending, default_proposal, propose,
}

-- less than nine tenths of every budget are consumed
abbrev pub HasBudget : BudgetInfo → Type 0
HasBudget b =
    (b.iterations_consumed * 10 < b.max_iterations * 9)
    × (b.tool_calls_consumed * 10 < b.max_tool_calls * 9)
    × (b.wall_time_consumed * 10 < b.max_wall_time_seconds * 9)
    × (b.subagent_calls_consumed * 10 < b.max_subagent_calls * 9)

HasBudget_lem :
    (b : BudgetInfo) → is_budget_exhausted b ≡ false → is_budget_critical b ≡ false → HasBudget b
unfolding is_budget_exhausted is_budget_critical is_critical
HasBudget_lem b e c = ground arith

soft-All :
    (l : List Constraint) → has_hard_constraints l ≡ false → All (λ c. c.severity ≡ Severity.soft) l
unfolding has_hard_constraints
soft-All [] h = tt
soft-All (c ∷ l) h = (ground arith, soft-All l (ground arith))

calm_lem :
    (input : PolicyInput)
    → is_high_risk_situation input ≡ false
    → (has_hard_constraints input.constraints ≡ false) × (is_budget_critical input.budgets ≡ false)
unfolding is_high_risk_situation
calm_lem input h = ground arith

no_actions : (o : Option TodoItem) → (for_pending o).actions ≡ []
unfolding for_pending minimal
no_actions none = refl
no_actions (some t) = refl

targets-IsFirst :
    (todos : List TodoItem) (o : Option TodoItem) (i : Text) (is : List Text)
    → Chosen todos o
    → (for_pending o).target_todo_ids ≡ i ∷ is
    → (t : TodoItem) × (i ≡ t.id) × (is ≡ []) × IsFirst t todos
unfolding for_pending minimal
targets-IsFirst todos none i is c h = cc h
targets-IsFirst todos (some t) i is c h = (t, cc h, cc h, c)

-- When the policy targets a TODO, it targets one, the first pending one of the highest priority; it
-- proposes no actions, no constraint is hard, and less than nine tenths of each budget are consumed.
pub propose_targets :
    (input : PolicyInput) (i : Text) (is : List Text)
    → (propose input).target_todo_ids ≡ i ∷ is
    → ((t : TodoItem) × (i ≡ t.id) × (is ≡ []) × IsFirst t input.active_todos)
      × ((propose input).actions ≡ [])
      × All (λ c. c.severity ≡ Severity.soft) input.constraints
      × HasBudget input.budgets
unfolding propose budget_exhausted_proposal approval_request_proposal default_proposal minimal
propose_targets input i is h = elim (Bool-cases (is_budget_exhausted input.budgets)) [
  | inl spent ↦ cc (rw spent at h)
  | inr left ↦ elim (Bool-cases (is_high_risk_situation input)) [
    | inl risky ↦ cc (rw (left, risky) at h)
    | inr calm ↦
        let (soft, steady) = calm_lem input calm in
        let first =
          targets-IsFirst input.active_todos (get_first_pending_todo input.active_todos) i is
            (get_first_pending_todo-Chosen input.active_todos) (rw (left, calm) at h) in
        (
          first,
          rw (left, calm) (no_actions (get_first_pending_todo input.active_todos)),
          soft-All input.constraints soft,
          HasBudget_lem input.budgets left steady,
        )
  ]
]

-- ===== src/Policy/Router/Choice.antt =====
-- When the router chooses which policy.
use dawn_kestrel.Prelude.{
  ◌*◌, ◌≤◌, ◌<◌, ◌≡◌, refl, ◌⊎◌, inl, inr, Bool, true, false, ◌&&◌, none, List, [], ◌∷◌, length,
  leb, is_empty, Bool-cases, All, arith,
}
use dawn_kestrel.Policy.{TodoItem, Constraint, PolicyInput, BudgetInfo}
use dawn_kestrel.Policy.Todos.{is_pending}
use dawn_kestrel.Policy.Rules.{is_hard}
use dawn_kestrel.Policy.Router.{
  PolicyEngine, rules, react, plan_execute, fsm, is_under_pressure, count_if, is_strict,
  is_incomplete, is_ambiguous, is_tool_intensive, is_relevant, mentions_work, select_policy,
}

count_if_zero {ℓ} :
    {A : Type ℓ} (p : A → Bool) (xs : List A) → count_if p xs ≡ 0 → All (λ x. p x ≡ false) xs
unfolding count_if
count_if_zero p [] h = tt
count_if_zero p (x ∷ xs) h = elim (Bool-cases (p x)) [
  | inl hit ↦ absurd (omega (arith, rw hit at h))
  | inr off ↦ (off, count_if_zero p xs (rw off at h))
]

pub count_if-le-length {ℓ} : {A : Type ℓ} (p : A → Bool) (xs : List A) → count_if p xs ≤ length xs
unfolding count_if
count_if-le-length p [] = omega arith
count_if-le-length p (x ∷ xs) = ground (arith, count_if-le-length p xs)

count_if-All {ℓ} :
    {A : Type ℓ} (p : A → Bool) (xs : List A) → length xs ≤ count_if p xs → All (λ x. p x ≡ true) xs
unfolding count_if
count_if-All p [] h = tt
count_if-All p (x ∷ xs) h = elim (Bool-cases (p x)) [
  | inl hit ↦ (hit, count_if-All p xs (omega (arith, rw hit at h)))
  | inr off ↦ absurd (omega (arith, rw off at h, count_if-le-length p xs))
]

-- no more than four fifths of the iterations are consumed
abbrev pub HasHeadroom : BudgetInfo → Type 0
HasHeadroom b = (b.iterations_consumed * 5 ≤ b.max_iterations * 4) ⊎ (b.max_iterations ≡ 0)

abbrev pub AreSoft : List Constraint → Type 0
AreSoft l = All (λ c. is_hard c.severity ≡ false) l

-- every TODO is open, or more than three are open and none of them is pending
abbrev pub IsUnclear : List TodoItem → Type 0
IsUnclear todos =
    All (λ t. is_incomplete t.status ≡ true) todos
    ⊎ ((3 < count_if (λ t. is_incomplete t.status) todos)
        × All (λ t. is_pending t.status ≡ false) todos)

-- at least half of the TODOs that are pending or in progress mention work on files
abbrev pub IsHeavy : List TodoItem → Type 0
IsHeavy todos =
    (0 < count_if (λ t. is_relevant t.status) todos)
    × (count_if (λ t. is_relevant t.status) todos
        ≤ count_if (λ t. is_relevant t.status && mentions_work t) todos * 2)

pressed_lem :
    (input : PolicyInput)
    → is_under_pressure input ≡ true
    → input.budgets.max_iterations * 4 < input.budgets.iterations_consumed * 5
unfolding is_under_pressure
pressed_lem input h = ground arith

empty_of-All {ℓ} : {A : Type ℓ} (P : A → Type 0) (xs : List A) → is_empty xs ≡ true → All P xs
empty_of-All P [] h = tt
empty_of-All P (x ∷ xs) h = cc h

headroom_left : (input : PolicyInput) → is_under_pressure input ≡ false → HasHeadroom input.budgets
unfolding is_under_pressure
headroom_left input h = elim (Bool-cases (leb input.budgets.max_iterations 0)) [
  | inl zero_max ↦ inr (ground arith)
  | inr positive ↦ inl (ground arith)
]

soft_left : (input : PolicyInput) → is_strict input ≡ false → AreSoft input.constraints
unfolding is_strict
soft_left input h = elim (Bool-cases (is_empty input.constraints)) [
  | inl none_there ↦ empty_of-All _ input.constraints none_there
  | inr some_there ↦ count_if_zero _ input.constraints (ground arith)
]

none_counted {ℓ} :
    {A : Type ℓ} (p : A → Bool) (xs : List A) → All (λ x. p x ≡ false) xs → count_if p xs ≡ 0
unfolding count_if
none_counted p [] h = refl
none_counted p (x ∷ xs) (off, h) = rw off (none_counted p xs h)

strict_lem : (input : PolicyInput) → is_strict input ≡ true → ¬ AreSoft input.constraints
unfolding is_strict
strict_lem input h soft =
    ground (arith, none_counted (λ c. is_hard c.severity) input.constraints soft)

unclear : (input : PolicyInput) → is_ambiguous input ≡ true → IsUnclear input.active_todos
unfolding is_ambiguous
unclear input h =
    elim (Bool-cases (
      leb (length input.active_todos)
        (count_if (λ t. is_incomplete t.status) input.active_todos))) [
          | inl all_open ↦ inl (count_if-All _ input.active_todos (ground arith))
          | inr some_closed ↦ inr (ground arith, count_if_zero _ input.active_todos (ground arith))
        ]

heavy : (input : PolicyInput) → is_tool_intensive input ≡ true → IsHeavy input.active_todos
unfolding is_tool_intensive
heavy input h = ground arith

abbrev pub Reason : PolicyEngine → PolicyInput → Type 0
Reason rules input =
    (input.budgets.max_iterations * 4 < input.budgets.iterations_consumed * 5)
    ⊎ (¬ AreSoft input.constraints)
    ⊎ ((is_ambiguous input ≡ false) × (is_tool_intensive input ≡ false))
Reason react input =
    HasHeadroom input.budgets × AreSoft input.constraints × IsUnclear input.active_todos
Reason plan_execute input =
    HasHeadroom input.budgets × AreSoft input.constraints × IsHeavy input.active_todos
Reason fsm input = ⊥

-- Without a mode in the environment, the router chooses the careful policy of rules when more than
-- four fifths of the iterations are consumed or a constraint is hard. It chooses the other two only
-- with headroom and soft constraints: the reacting one when every TODO is open, or more than three
-- are and none is pending; the planning one when at least half of the TODOs that are pending or in
-- progress mention work. It never chooses the state machine.
pub select_policy-Reason : (input : PolicyInput) → Reason (select_policy none input) input
unfolding select_policy
select_policy-Reason input = elim (Bool-cases (is_under_pressure input)) [
  | inl pressed ↦ rw pressed (inl (pressed_lem input pressed))
  | inr easy ↦ elim (Bool-cases (is_strict input)) [
    | inl strict ↦ rw (easy, strict) (inr (inl (strict_lem input strict)))
    | inr lax ↦ elim (Bool-cases (is_ambiguous input)) [
      | inl ambiguous ↦
          rw (easy, lax, ambiguous)
            (headroom_left input easy, soft_left input lax, unclear input ambiguous)
      | inr clear ↦ elim (Bool-cases (is_tool_intensive input)) [
        | inl intensive ↦
            rw (easy, lax, clear, intensive)
              (headroom_left input easy, soft_left input lax, heavy input intensive)
        | inr light ↦ rw (easy, lax, clear, light) (inr (inr (clear, light)))
      ]
    ]
  ]
]

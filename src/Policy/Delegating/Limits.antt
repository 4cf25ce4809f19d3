-- ===== src/Policy/Delegating/Limits.antt =====
-- What the built-in policies keep within limits.
use dawn_kestrel.Prelude.{
  ℕ, zero, suc, ◌+◌, ◌*◌, ◌≤◌, ◌<◌, ◌≡◌, refl, ◌⊎◌, inl, inr, ◌↔◌, true, false, ◌||◌, List, [], ◌∷◌,
  length, leb, take, length-take-le, length-take-le_length, Dict, Text, is_empty, Bool-cases, arith,
}
use dawn_kestrel.Policy.Delegating.{
  DelegationDecision, go_on, delegate, done, synthesize, DelegationContext, DelegationOutput,
  Policy, is_done, is_delegate, is_budget_exhausted, is_low, limited, budget_aware,
  evidence_threshold, create_subtasks, complexity_based,
}

-- less than four fifths of the cost, the time and the iterations are used
abbrev pub HasPlenty : DelegationContext → Type 0
HasPlenty c =
    (c.cost_usd * 5 < c.max_cost_usd * 4)
    × (c.elapsed_seconds * 5 < c.max_seconds * 4)
    × (c.iteration_count * 5 < c.max_iterations * 4)

abbrev pub IsFrugal : DelegationContext → DelegationOutput → DelegationOutput → Type 0
IsFrugal c inner o =
    ((is_budget_exhausted c ≡ true)
      × ((o.decision ≡ done) ⊎ (o.decision ≡ synthesize))
      × (o.subtasks ≡ []))
    ⊎ ((is_budget_exhausted c ≡ false)
        × (o.decision ≡ inner.decision)
        × (length o.subtasks ≤ length inner.subtasks)
        × (HasPlenty c ⊎ (is_delegate o.decision ≡ false) ⊎ (length o.subtasks ≤ 1)))

delegates_lem : (d : DelegationDecision) → is_delegate d ≡ true → delegate ≡ d
delegates_lem delegate h = refl
delegates_lem go_on h = cc h
delegates_lem synthesize h = cc h
delegates_lem done h = cc h

limited-IsFrugal :
    (c : DelegationContext) (inner : DelegationOutput)
    → is_budget_exhausted c ≡ false
    → IsFrugal c inner (limited inner)
unfolding limited
limited-IsFrugal c inner h = elim (Bool-cases (is_delegate inner.decision)) [
  | inl delegating ↦ rw delegating (
      inr (
        h,
        delegates_lem inner.decision delegating,
        length-take-le_length 1 inner.subtasks,
        inr (inr (length-take-le 1 inner.subtasks)),
      ))
  | inr other ↦ rw other (inr (h, refl, omega arith, inr (inl other)))
]

-- When the budget is exhausted, the budget-aware policy is done or synthesizes, without subtasks.
-- Otherwise it decides as the policy within, with no more subtasks than that, and delegates more than
-- one only while less than four fifths of the cost, of the time and of the iterations are used.
pub budget_aware-IsFrugal :
    (inner_policy : Policy) (c : DelegationContext)
    → IsFrugal c (inner_policy c) (budget_aware inner_policy c)
unfolding budget_aware is_low
budget_aware-IsFrugal inner_policy c = elim (Bool-cases (leb c.max_cost_usd c.cost_usd)) [
  | inl spent ↦ rw spent (inl (unfold is_budget_exhausted in rw spent refl, inl refl, refl))
  | inr cheap ↦ elim (Bool-cases (leb c.max_seconds c.elapsed_seconds)) [
    | inl late ↦
        rw (cheap, late) (inl (unfold is_budget_exhausted in rw (cheap, late) refl, inl refl, refl))
    | inr early ↦ elim (Bool-cases (leb c.max_depth c.current_depth)) [
      | inl deep ↦
          rw (cheap, early, deep)
            (inl (unfold is_budget_exhausted in rw (cheap, early, deep) refl, inr refl, refl))
      | inr shallow ↦ elim (Bool-cases (leb c.max_iterations c.iteration_count)) [
        | inl over ↦
            rw (cheap, early, shallow, over)
              (inl (
                unfold is_budget_exhausted in rw (cheap, early, shallow, over) refl,
                inl refl,
                refl,
              ))
        | inr under ↦
            let left : is_budget_exhausted c ≡ false =
              unfold is_budget_exhausted in rw (cheap, early, shallow, under) refl in
            elim (Bool-cases (
              is_low c.cost_usd c.max_cost_usd
              || is_low c.elapsed_seconds c.max_seconds
              || is_low c.iteration_count c.max_iterations)) [
                | inl low ↦
                    rw (cheap, early, shallow, under, low)
                      (limited-IsFrugal c (inner_policy c) left)
                | inr plenty ↦
                    rw (cheap, early, shallow, under, plenty)
                      (inr (left, refl, omega arith, inl (ground arith)))
              ]
      ]
    ]
  ]
]

-- The evidence policy is done exactly when enough evidence is there: without it, it goes on even when
-- the policy within is done because the budget is exhausted.
pub evidence_threshold_done :
    (min_evidence_count : ℕ) (inner_policy : Policy) (c : DelegationContext)
    → (is_done (evidence_threshold min_evidence_count inner_policy c).decision ≡ true)
      ↔ (min_evidence_count ≤ c.accumulated_evidence)
unfolding evidence_threshold
evidence_threshold_done min_evidence_count inner_policy c =
    elim (Bool-cases (leb min_evidence_count c.accumulated_evidence)) [
      | inl enough ↦ rw enough (λ h. ground arith, λ h. refl)
      | inr few ↦ elim (Bool-cases (is_done (inner_policy c).decision)) [
        | inl over ↦ rw (few, over) (λ h. cc h, λ h. absurd (ground arith))
        | inr on ↦ rw (few, on) (λ h. cc (h, on), λ h. absurd (ground arith))
      ]
    ]

take_nonempty {ℓ} :
    {A : Type ℓ} (n : ℕ) (xs : List A) → 0 < n → is_empty xs ≡ false → 0 < length (take n xs)
take_nonempty zero xs h e = absurd (omega arith)
take_nonempty (suc n) [] h e = cc e
take_nonempty (suc n) (x ∷ xs) h e = omega arith

-- When the complexity policy delegates, the budget is not exhausted, the task is at least as complex
-- as the threshold, the subtasks stay above the deepest level, and there are at least one of them and
-- at most the maximum, as long as the maximum is not 0.
pub complexity_based_delegates :
    (complexity_threshold max_subtasks : ℕ) (domain_agents : Dict Text Text) (c : DelegationContext)
    → 0 < max_subtasks
    → is_delegate (complexity_based complexity_threshold max_subtasks domain_agents c).decision
      ≡ true
    → (is_budget_exhausted c ≡ false)
      × (c.current_depth + 1 < c.max_depth)
      × (complexity_threshold ≤ c.task_complexity)
      × (0 < length (complexity_based complexity_threshold max_subtasks domain_agents c).subtasks)
      × (length (complexity_based complexity_threshold max_subtasks domain_agents c).subtasks
          ≤ max_subtasks)
unfolding complexity_based
complexity_based_delegates complexity_threshold max_subtasks domain_agents c positive h =
    let subtasks = create_subtasks max_subtasks domain_agents c in
    elim (Bool-cases (is_budget_exhausted c)) [
      | inl spent ↦ cc (rw spent at h)
      | inr left ↦ elim (Bool-cases (leb c.max_depth (c.current_depth + 1))) [
        | inl deep ↦ cc (rw (left, deep) at h)
        | inr shallow ↦ elim (Bool-cases (leb complexity_threshold c.task_complexity)) [
          | inr simple ↦ cc (rw (left, shallow, simple) at h)
          | inl complex ↦ elim (Bool-cases (is_empty subtasks)) [
            | inl none_made ↦ cc (rw (left, shallow, complex, none_made) at h)
            | inr some_made ↦
                rw (left, shallow, complex, some_made)
                  (
                    refl,
                    ground arith,
                    ground arith,
                    take_nonempty max_subtasks subtasks positive some_made,
                    length-take-le max_subtasks subtasks,
                  )
          ]
        ]
      ]
    ]

-- ===== src/Policy/Delegating/Composite.antt =====
-- Which of several policies decides, and what the composite makes of the built-in ones.
use dawn_kestrel.Prelude.{
  ℕ, ◌≤◌, ◌<◌, ◌≡◌, refl, ap, ◌⊎◌, inl, inr, true, false, not, ◌||◌, List, [], ◌∷◌, ◌++◌, length,
  leb, Bool-cases, All, arith,
}
use dawn_kestrel.Policy.Delegating.{
  done, synthesize, DelegationContext, DelegationOutput, Policy, is_done, decides,
  policies_exhausted, composite, is_budget_exhausted, budget_aware, stagnation_aware, last_ones,
  all_zero,
}

-- The composite goes on to the next policy: stopping, with a confidence below nine tenths.
abbrev pub IsPassed : DelegationOutput → Type 0
IsPassed o = (is_done o.decision ≡ true) × (o.confidence < 90)

abbrev pub IsDecisive : DelegationOutput → Type 0
IsDecisive o = (is_done o.decision ≡ false) ⊎ (90 ≤ o.confidence)

abbrev pub DecidedBy : List Policy → DelegationContext → DelegationOutput → Type 0
DecidedBy ps c o =
    ((p : Policy) × (front back : List Policy) × (ps ≡ front ++ p ∷ back)
      × All (λ q. IsPassed (q c)) front
      × IsDecisive (p c)
      × (o ≡ p c))
    ⊎ (All (λ q. IsPassed (q c)) ps × (o ≡ decides done policies_exhausted 50))

passed_first :
    (q : Policy) (ps : List Policy) (c : DelegationContext) (o : DelegationOutput)
    → IsPassed (q c)
    → DecidedBy ps c o
    → DecidedBy (q ∷ ps) c o
passed_first q ps c o h (inl (p, front, back, e, before, decisive, same)) =
    inl (p, q ∷ front, back, ap (◌∷◌ q) e, (h, before), decisive, same)
passed_first q ps c o h (inr (all, same)) = inr ((h, all), same)

decisive_lem :
    (o : DelegationOutput) → (not (is_done o.decision) || leb 90 o.confidence) ≡ true → IsDecisive o
decisive_lem o h = elim (Bool-cases (is_done o.decision)) [
  | inl stops ↦ inr (ground arith)
  | inr on ↦ inl on
]

passed_lem :
    (o : DelegationOutput) → (not (is_done o.decision) || leb 90 o.confidence) ≡ false → IsPassed o
passed_lem o h = (ground arith, ground arith)

-- The output of the composite is that of the first policy that decides: each one before it says to
-- stop, but with a confidence below nine tenths. When all do, it is to stop, with a confidence of one
-- half.
pub composite-DecidedBy :
    (ps : List Policy) (c : DelegationContext) → DecidedBy ps c (composite ps c)
unfolding composite
composite-DecidedBy [] c = inr (tt, refl)
composite-DecidedBy (p ∷ ps) c =
    elim (Bool-cases (not (is_done (p c).decision) || leb 90 (p c).confidence)) [
      | inl decisive ↦ rw decisive (inl (p, [], ps, refl, tt, decisive_lem (p c) decisive, refl))
      | inr passed ↦
          rw passed (passed_first p ps c _ (passed_lem (p c) passed) (composite-DecidedBy ps c))
    ]

-- With the budget-aware policy in front, the composite stops delegating as soon as the budget is
-- exhausted, whatever the policies within and behind it say: it is done or synthesizes, and makes no
-- subtasks.
pub composite-budget_aware :
    (inner_policy : Policy) (ps : List Policy) (c : DelegationContext)
    → is_budget_exhausted c ≡ true
    → let o = composite (budget_aware inner_policy ∷ ps) c in
      ((o.decision ≡ done) ⊎ (o.decision ≡ synthesize)) × (o.subtasks ≡ [])
unfolding composite budget_aware is_budget_exhausted
composite-budget_aware inner_policy ps c h = elim (Bool-cases (leb c.max_cost_usd c.cost_usd)) [
  | inl spent ↦ rw spent (inl refl, refl)
  | inr cheap ↦ elim (Bool-cases (leb c.max_seconds c.elapsed_seconds)) [
    | inl late ↦ rw (cheap, late) (inl refl, refl)
    | inr early ↦ elim (Bool-cases (leb c.max_depth c.current_depth)) [
      | inl deep ↦ rw (cheap, early, deep) (inr refl, refl)
      | inr shallow ↦
          let over : leb c.max_iterations c.iteration_count ≡ true =
            rw (cheap, early, shallow) at h in
          rw (cheap, early, shallow, over) (inl refl, refl)
    ]
  ]
]

-- A stagnation never makes the composite stop: when the last iterations had no findings, the output
-- of the stagnation-aware policy is passed over, and the policies behind it decide.
pub composite-stagnation_aware :
    (inner_policy : Policy) (stagnation_threshold : ℕ) (ps : List Policy) (c : DelegationContext)
    → stagnation_threshold ≤ length c.findings_per_iteration
    → all_zero (last_ones stagnation_threshold c.findings_per_iteration) ≡ true
    → composite (stagnation_aware inner_policy stagnation_threshold ∷ ps) c ≡ composite ps c
unfolding composite stagnation_aware
composite-stagnation_aware inner_policy stagnation_threshold ps c h z =
    let enough : leb stagnation_threshold (length c.findings_per_iteration) ≡ true = ground arith in
    rw (enough, z) refl

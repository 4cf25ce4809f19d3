-- ===== src/Tests/Delegating.antt =====
-- dawn_kestrel/policy/builtin/delegation.py
use dawn_kestrel.Prelude.{ℕ, ◌≡◌, refl, false, none, List, [], ◌∷◌, length, Dict, Text, codes}
use dawn_kestrel.Policy.Delegating.{
  delegate, DelegationContext, Policy, composite, is_budget_exhausted, budget_aware,
  stagnation_aware, complexity_based, evidence_threshold, is_done,
}
use dawn_kestrel.Policy.Delegating.Composite.{DecidedBy, composite-DecidedBy}
use dawn_kestrel.Policy.Delegating.Limits.{IsFrugal, budget_aware-IsFrugal}
use dawn_kestrel.Policy.Delegating.Domains.{order_or_keys, domain_based}
use dawn_kestrel.Policy.Delegating.Domains.Routes.{IsRouted, domain_based-IsRouted}

abbrev context : ℕ → List ℕ → DelegationContext
context cost findings = record {
  current_agent = codes "root";
  current_depth = 0;
  iteration_count = 3;
  accumulated_evidence = 1;
  findings_per_iteration = findings;
  cost_usd = cost;
  elapsed_seconds = 30;
  task_complexity = 60;
  domains_detected = codes "auth" ∷ codes "tests" ∷ codes "docs" ∷ [];
  max_depth = 3;
  max_iterations = 10;
  max_cost_usd = 100;
  max_seconds = 300;
  stagnation_threshold = 3;
}

abbrev inner : Policy
inner = complexity_based 50 5 []

composite-DecidedBy_example :
    DecidedBy
      (stagnation_aware inner 2 ∷ inner ∷ [])
      (context 10 (4 ∷ 0 ∷ 0 ∷ []))
      (composite (stagnation_aware inner 2 ∷ inner ∷ []) (context 10 (4 ∷ 0 ∷ 0 ∷ [])))
composite-DecidedBy_example =
    composite-DecidedBy (stagnation_aware inner 2 ∷ inner ∷ []) (context 10 (4 ∷ 0 ∷ 0 ∷ []))

-- two iterations without findings, and yet the composite delegates
goes_on_stagnant :
    (composite (stagnation_aware inner 2 ∷ inner ∷ []) (context 10 (4 ∷ 0 ∷ 0 ∷ []))).decision
    ≡ delegate
unfolding composite stagnation_aware complexity_based
goes_on_stagnant = refl

budget_aware-IsFrugal_example :
    IsFrugal (context 85 []) (inner (context 85 [])) (budget_aware inner (context 85 []))
budget_aware-IsFrugal_example = budget_aware-IsFrugal inner (context 85 [])

one_subtask_when_low : length (budget_aware inner (context 85 [])).subtasks ≡ 1
unfolding budget_aware complexity_based
one_subtask_when_low = refl

-- an exhausted budget does not end the search for evidence
overrides_the_budget :
    is_done (evidence_threshold 2 (budget_aware inner) (context 100 [])).decision ≡ false
unfolding evidence_threshold budget_aware
overrides_the_budget = refl

abbrev agents : Dict Text Text
agents = (codes "docs", codes "writer") ∷ (codes "auth", codes "guard") ∷ []

domain_based-IsRouted_example :
    ((domain_based agents (codes "generalist") none (context 10 [])).decision ≡ delegate)
    × IsRouted agents
        (codes "generalist")
        (order_or_keys none agents)
        (context 10 []).domains_detected
        (domain_based agents (codes "generalist") none (context 10 [])).subtasks
unfolding is_budget_exhausted
domain_based-IsRouted_example =
    domain_based-IsRouted agents (codes "generalist") none (context 10 []) refl refl

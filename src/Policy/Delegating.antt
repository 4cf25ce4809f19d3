-- ===== src/Policy/Delegating.antt =====
-- The policies of delegation: dawn_kestrel/policy/builtin/delegation.py, and the composite and the
-- default one of dawn_kestrel/policy/delegation.py. A policy is a function of the context. Complexities
-- and confidences are hundredths; costs and times are whole numbers of one unit. The fields of outputs
-- that are left out are empty dictionaries always.
pub mod Composite
pub mod Limits
pub mod Domains
use dawn_kestrel.Prelude.{
  ℕ, zero, suc, ◌+◌, ◌-◌, ◌*◌, Bool, true, false, not, ◌||◌, ◌&&◌, Option, none, some, List, [],
  ◌∷◌, ◌++◌, map, length, take, drop, Dict, lookup, contains, is_empty, ltb, leb, if◌then◌else◌,
  Text, codes, list_eq, nat_eq, ◌==◌,
}

pub data DelegationDecision : Type 0 where
  go_on delegate synthesize done : DelegationDecision

pub record SubtaskProposal : Type 0 where
  pub agent : Text
  pub prompt : Text
  pub domain : Text
  pub priority : ℕ

-- `DelegationContext`; of the results and the evidence only the numbers are looked at
pub record DelegationContext : Type 0 where
  pub current_agent : Text
  pub current_depth : ℕ
  pub iteration_count : ℕ
  pub accumulated_evidence : ℕ
  pub findings_per_iteration : List ℕ
  pub cost_usd : ℕ
  pub elapsed_seconds : ℕ
  pub task_complexity : ℕ
  pub domains_detected : List Text
  pub max_depth : ℕ
  pub max_iterations : ℕ
  pub max_cost_usd : ℕ
  pub max_seconds : ℕ
  pub stagnation_threshold : ℕ

-- the rationales, by what they say
pub data Rationale : Type 0 where
  budget_exhausted approaching_max_depth complexity_exceeds complexity_below : Rationale
  cost_exhausted time_exhausted max_depth_reached max_iterations_reached : Rationale
  low_budget : Rationale → Rationale
  no_findings diminishing_returns : Rationale
  no_domains_for_long no_domains : Rationale
  specialized default_agent_for : List Text → Rationale
  under_the_limit evidence_met evidence_missing policies_exhausted : Rationale
  default_policy : Text → Rationale

pub record DelegationOutput : Type 0 where
  pub decision : DelegationDecision
  pub rationale : Rationale
  pub confidence : ℕ
  pub subtasks : List SubtaskProposal
  pub continue_with : Option Text

abbrev pub Policy : Type 0
Policy = DelegationContext → DelegationOutput

abbrev pub is_done : DelegationDecision → Bool
is_done done = true
is_done _ = false

abbrev pub is_delegate : DelegationDecision → Bool
is_delegate delegate = true
is_delegate _ = false

-- an output without subtasks
abbrev pub decides : DelegationDecision → Rationale → ℕ → DelegationOutput
decides decision rationale confidence = record {
  decision = decision;
  rationale = rationale;
  confidence = confidence;
  subtasks = [];
  continue_with = none;
}

abbrev pub delegates : Rationale → ℕ → List SubtaskProposal → DelegationOutput
delegates rationale confidence subtasks = record {
  decision = delegate;
  rationale = rationale;
  confidence = confidence;
  subtasks = subtasks;
  continue_with = none;
}

unfoldable pub is_budget_exhausted : DelegationContext → Bool
is_budget_exhausted c =
    leb c.max_cost_usd c.cost_usd
    || leb c.max_seconds c.elapsed_seconds
    || leb c.max_depth c.current_depth
    || leb c.max_iterations c.iteration_count

-- `xs[-n:]`, which is all of the list for 0
abbrev pub last_ones {ℓ} : {A : Type ℓ} → ℕ → List A → List A
last_ones zero xs = xs
last_ones (suc n) xs = drop (length xs - suc n) xs

abbrev pub all_zero : List ℕ → Bool
all_zero [] = true
all_zero (n ∷ ns) = n == 0 && all_zero ns

abbrev pub sum : List ℕ → ℕ
sum [] = 0
sum (n ∷ ns) = n + sum ns

-- the loop of `CompositeDelegationPolicy.evaluate`
unfoldable pub composite : List Policy → Policy
composite [] c = decides done policies_exhausted 50
composite (p ∷ ps) c =
    let output = p c in
    let rest = composite ps c in
    if not (is_done output.decision) || leb 90 output.confidence then output else rest

unfoldable pub default_policy_of : DelegationDecision → Text → Policy
default_policy_of decision rationale c = decides decision (default_policy rationale) 50

-- ComplexityBasedDelegationPolicy
unfoldable pub by_domain : Dict Text Text → Text → SubtaskProposal
by_domain domain_agents domain = record {
  agent = elim (lookup domain domain_agents) [
    | none ↦ domain ++ codes "_agent"
    | some agent ↦ agent
  ];
  prompt = codes "Analyze " ++ (domain ++ codes " aspects of the task");
  domain = domain;
  priority = 1;
}

abbrev pub specialist : SubtaskProposal
specialist = record {
  agent = codes "specialist";
  prompt = codes "Perform deep analysis of this complex task";
  domain = codes "general";
  priority = 1;
}

unfoldable pub create_subtasks : ℕ → Dict Text Text → DelegationContext → List SubtaskProposal
unfolding by_domain
create_subtasks max_subtasks domain_agents c =
    let subtasks = map (by_domain domain_agents) (take max_subtasks c.domains_detected) in
    if is_empty subtasks && ltb 70 c.task_complexity then specialist ∷ [] else subtasks

unfoldable pub complexity_based : ℕ → ℕ → Dict Text Text → Policy
unfolding is_budget_exhausted create_subtasks
complexity_based complexity_threshold max_subtasks domain_agents c =
    let subtasks = create_subtasks max_subtasks domain_agents c in
    let stays = record (decides go_on complexity_below 70) {
      continue_with = some c.current_agent;
    } in
    if is_budget_exhausted c
    then decides done budget_exhausted 100
    else if leb c.max_depth (c.current_depth + 1)
    then decides synthesize approaching_max_depth 90
    else if leb complexity_threshold c.task_complexity
    then if is_empty subtasks
      then stays
      else delegates complexity_exceeds 80 (take max_subtasks subtasks)
    else stays

-- `1 - used / maximum <= 0.2`
unfoldable pub is_low : ℕ → ℕ → Bool
is_low used maximum = leb ((maximum - used) * 5) maximum

-- BudgetAwareDelegationPolicy
unfoldable pub limited : DelegationOutput → DelegationOutput
limited output =
    if is_delegate output.decision
    then delegates (low_budget output.rationale) output.confidence (take 1 output.subtasks)
    else output

unfoldable pub budget_aware : Policy → Policy
unfolding is_low limited
budget_aware inner_policy c =
    let output = inner_policy c in
    if leb c.max_cost_usd c.cost_usd
    then decides done cost_exhausted 100
    else if leb c.max_seconds c.elapsed_seconds
    then decides done time_exhausted 100
    else if leb c.max_depth c.current_depth
    then decides synthesize max_depth_reached 90
    else if leb c.max_iterations c.iteration_count
    then decides done max_iterations_reached 90
    else if is_low c.cost_usd c.max_cost_usd
        || is_low c.elapsed_seconds c.max_seconds
        || is_low c.iteration_count c.max_iterations
    then limited output
    else output

-- StagnationAwarePolicy
unfoldable pub stagnation_aware : Policy → ℕ → Policy
stagnation_aware inner_policy stagnation_threshold c =
    let recent = last_ones stagnation_threshold c.findings_per_iteration in
    let output = inner_policy c in
    if leb stagnation_threshold (length c.findings_per_iteration)
    then if all_zero recent
      then decides done no_findings 85
      else if leb 3 (length c.findings_per_iteration) && ltb 0 (sum recent)
      then decides done diminishing_returns 80
      else output
    else output

-- IterationLimitPolicy
unfoldable pub iteration_limit : ℕ → Option Policy → Policy
iteration_limit max_iterations inner_policy c =
    if leb max_iterations c.iteration_count
    then decides done max_iterations_reached 100
    else elim inner_policy [ none ↦ decides go_on under_the_limit 50 | some p ↦ p c ]

-- EvidenceThresholdPolicy
unfoldable pub evidence_threshold : ℕ → Policy → Policy
evidence_threshold min_evidence_count inner_policy c =
    let output = inner_policy c in
    if leb min_evidence_count c.accumulated_evidence
    then decides done evidence_met 90
    else if is_done output.decision
    then decides go_on evidence_missing 70
    else output

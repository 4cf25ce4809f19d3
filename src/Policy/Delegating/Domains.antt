-- ===== src/Policy/Delegating/Domains.antt =====
-- `DomainBasedDelegationPolicy` of dawn_kestrel/policy/builtin/delegation.py.
pub mod Routes
use dawn_kestrel.Prelude.{
  ℕ, zero, suc, ◌+◌, Bool, true, false, Option, none, some, List, [], ◌∷◌, ◌++◌, map, Dict, lookup,
  contains, is_empty, leb, if◌then◌else◌, Text, codes, list_eq, nat_eq, ◌==◌,
}
use dawn_kestrel.Policy.Delegating.{
  DelegationDecision, go_on, done, SubtaskProposal, DelegationContext, DelegationOutput, Policy,
  decides, delegates, is_budget_exhausted, budget_exhausted, no_domains_for_long, no_domains,
  specialized, default_agent_for,
}

-- `priority_order or list(domain_agents.keys())`
abbrev pub order_or_keys : Option (List Text) → Dict Text Text → List Text
order_or_keys none domain_agents = map (λ p. p.0) domain_agents
order_or_keys (some []) domain_agents = map (λ p. p.0) domain_agents
order_or_keys (some (d ∷ order)) domain_agents = d ∷ order

-- `order.index(domain)` of one that is there
abbrev pub index_of : Text → List Text → ℕ
index_of domain [] = 0
index_of domain (d ∷ order) = if d == domain then 0 else suc (index_of domain order)

unfoldable pub rank : List Text → Text → ℕ
rank order domain = if contains domain order then index_of domain order else 999

-- `sorted` by the rank, which is stable
unfoldable pub insert_domain : List Text → Text → List Text → List Text
insert_domain order domain [] = domain ∷ []
insert_domain order domain (d ∷ ds) =
    if leb (rank order domain) (rank order d)
    then domain ∷ d ∷ ds
    else d ∷ insert_domain order domain ds

unfoldable pub prioritized_domains : List Text → List Text → List Text
unfolding insert_domain
prioritized_domains order [] = []
prioritized_domains order (d ∷ ds) = insert_domain order d (prioritized_domains order ds)

unfoldable pub subtask_for : List Text → Text → Text → SubtaskProposal
subtask_for order domain agent = record {
  agent = agent;
  prompt = codes "Analyze " ++ (domain ++ codes " aspects");
  domain = domain;
  priority = if contains domain order then index_of domain order + 1 else 99;
}

-- the loop over the domains
unfoldable pub subtasks_for : Dict Text Text → List Text → List Text → List SubtaskProposal
unfolding subtask_for
subtasks_for domain_agents order [] = []
subtasks_for domain_agents order (d ∷ ds) =
    let rest = subtasks_for domain_agents order ds in
    elim (lookup d domain_agents) [ none ↦ rest | some agent ↦ subtask_for order d agent ∷ rest ]

abbrev pub default_subtask : Text → SubtaskProposal
default_subtask default_agent = record {
  agent = default_agent;
  prompt = codes "Analyze task";
  domain = codes "general";
  priority = 99;
}

unfoldable pub domain_based : Dict Text Text → Text → Option (List Text) → Policy
unfolding is_budget_exhausted prioritized_domains subtasks_for
domain_based domain_agents default_agent priority_order c =
    let order = order_or_keys priority_order domain_agents in
    let domains = c.domains_detected in
    let subtasks = subtasks_for domain_agents order (prioritized_domains order domains) in
    if is_budget_exhausted c
    then decides done budget_exhausted 100
    else if is_empty domains
    then if leb 2 c.iteration_count
      then decides done no_domains_for_long 70
      else decides go_on no_domains 60
    else if is_empty subtasks
    then delegates (default_agent_for domains) 60 (default_subtask default_agent ∷ [])
    else delegates (specialized domains) 80 subtasks

-- ===== src/Policy/Delegating/Domains/Routes.antt =====
-- To whom `DomainBasedDelegationPolicy` gives the detected domains.
use dawn_kestrel.Prelude.{
  ℕ, ◌≤◌, ◌≡◌, refl, sym, ap, ◌∙◌, ◌⊎◌, inl, inr, Bool, true, false, ◌||◌, ◌&&◌, Option, none, some,
  List, [], ◌∷◌, map, Dict, lookup, contains, is_empty, leb, Bool-cases, Option-cases, Text,
  list_eq, list_beq, list_beq_iff, nat_eq, ◌==◌, All, subst, arith,
}
use dawn_kestrel.Policy.Delegating.{
  delegate, SubtaskProposal, DelegationContext, is_budget_exhausted,
}
use dawn_kestrel.Policy.Delegating.Domains.{
  order_or_keys, rank, insert_domain, prioritized_domains, subtask_for, subtasks_for,
  default_subtask, domain_based,
}

abbrev pub is_some {ℓ} : {A : Type ℓ} → Option A → Bool
is_some none = false
is_some (some a) = true

-- no one ranks before one that stands earlier
abbrev pub IsRanked : List Text → List Text → Type 0
IsRanked order [] = Unit
IsRanked order (d ∷ ds) = All (λ e. rank order d ≤ rank order e) ds × IsRanked order ds

All-le :
    (order : List Text) (m n : ℕ) (ds : List Text)
    → m ≤ n
    → All (λ e. n ≤ rank order e) ds
    → All (λ e. m ≤ rank order e) ds
All-le order m n [] h a = tt
All-le order m n (d ∷ ds) h (first, a) = (omega arith, All-le order m n ds h a)

-- where one is put
placed :
    (order : List Text) (domain d : Text) (ds : List Text)
    → ((rank order domain ≤ rank order d) × (insert_domain order domain (d ∷ ds) ≡ domain ∷ d ∷ ds))
      ⊎ ((rank order d ≤ rank order domain)
          × (insert_domain order domain (d ∷ ds) ≡ d ∷ insert_domain order domain ds))
unfolding insert_domain
placed order domain d ds = elim (Bool-cases (leb (rank order domain) (rank order d))) [
  | inl before ↦ inl (ground arith, rw before refl)
  | inr after ↦ inr (ground arith, rw after refl)
]

All-insert_domain :
    (order : List Text) (m : ℕ) (domain : Text) (ds : List Text)
    → m ≤ rank order domain
    → All (λ e. m ≤ rank order e) ds
    → All (λ e. m ≤ rank order e) (insert_domain order domain ds)
All-insert_domain order m domain [] h a = unfold insert_domain in (h, tt)
All-insert_domain order m domain (d ∷ ds) h (first, a) = elim (placed order domain d ds) [
  | inl (le, same) ↦ rw same (h, (first, a))
  | inr (le, same) ↦ rw same (first, All-insert_domain order m domain ds h a)
]

insert_domain-IsRanked :
    (order : List Text) (domain : Text) (ds : List Text)
    → IsRanked order ds
    → IsRanked order (insert_domain order domain ds)
insert_domain-IsRanked order domain [] h = unfold insert_domain in (tt, tt)
insert_domain-IsRanked order domain (d ∷ ds) (first, h) = elim (placed order domain d ds) [
  | inl (le, same) ↦ rw same ((le, All-le order _ (rank order d) ds le first), (first, h))
  | inr (le, same) ↦
      rw same
        (All-insert_domain order _ domain ds le first, insert_domain-IsRanked order domain ds h)
]

prioritized_domains-IsRanked :
    (order domains : List Text) → IsRanked order (prioritized_domains order domains)
unfolding prioritized_domains
prioritized_domains-IsRanked order [] = tt
prioritized_domains-IsRanked order (d ∷ ds) =
    insert_domain-IsRanked order d _ (prioritized_domains-IsRanked order ds)

contains-insert_domain :
    (order : List Text) (e domain : Text) (ds : List Text)
    → contains e (insert_domain order domain ds) ≡ (domain == e || contains e ds)
unfolding insert_domain contains
contains-insert_domain order e domain [] = refl
contains-insert_domain order e domain (d ∷ ds) =
    ground (arith, contains-insert_domain order e domain ds)

contains-prioritized_domains :
    (order domains : List Text) (e : Text)
    → contains e (prioritized_domains order domains) ≡ contains e domains
unfolding prioritized_domains contains
contains-prioritized_domains order [] e = refl
contains-prioritized_domains order (d ∷ ds) e = ground (
  arith,
  contains-insert_domain order e d (prioritized_domains order ds),
  contains-prioritized_domains order ds e,
)

no_elements :
    (subtasks : List SubtaskProposal)
    → is_empty subtasks ≡ true
    → (e : Text) → contains e (map (λ s. s.domain) subtasks) ≡ false
unfolding contains
no_elements [] h e = refl
no_elements (s ∷ subtasks) h e = cc h

module _ (domain_agents : Dict Text Text) (order : List Text) where
  abbrev pub domains_of : List SubtaskProposal → List Text
  domains_of subtasks = map (λ s. s.domain) subtasks

  -- one turn of the loop
  turn :
      (d : Text) (ds : List Text)
      → ((lookup d domain_agents ≡ none)
          × (subtasks_for domain_agents order (d ∷ ds) ≡ subtasks_for domain_agents order ds))
        ⊎ ((agent : Text) × (lookup d domain_agents ≡ some agent)
            × (subtasks_for domain_agents order (d ∷ ds)
                ≡ subtask_for order d agent ∷ subtasks_for domain_agents order ds))
  unfolding subtasks_for
  turn d ds = elim (Option-cases (lookup d domain_agents)) [
    | inl missing ↦ inl (missing, rw (missing, subtasks_for) refl)
    | inr (agent, found) ↦ inr (agent, found, rw (found, subtasks_for) refl)
  ]

  All-subtasks_for :
      (m : ℕ) (ds : List Text)
      → All (λ e. m ≤ rank order e) ds
      → All (λ e. m ≤ rank order e) (domains_of (subtasks_for domain_agents order ds))
  All-subtasks_for m [] a = unfold subtasks_for in tt
  All-subtasks_for m (d ∷ ds) (first, a) = elim (turn d ds) [
    | inl (missing, same) ↦ rw same (All-subtasks_for m ds a)
    | inr (agent, found, same) ↦ rw same (unfold subtask_for in first, All-subtasks_for m ds a)
  ]

  subtasks_for-IsRanked :
      (ds : List Text)
      → IsRanked order ds
      → IsRanked order (domains_of (subtasks_for domain_agents order ds))
  subtasks_for-IsRanked [] h = unfold subtasks_for in tt
  subtasks_for-IsRanked (d ∷ ds) (first, h) = elim (turn d ds) [
    | inl (missing, same) ↦ rw same (subtasks_for-IsRanked ds h)
    | inr (agent, found, same) ↦
        rw same (unfold subtask_for in All-subtasks_for _ ds first, subtasks_for-IsRanked ds h)
  ]

  same_agent :
      (d e : Text) (o : Option Text)
      → lookup d domain_agents ≡ o
      → list_beq d e ≡ true
      → lookup e domain_agents ≡ o
  same_agent d e o found h = subst (λ t. lookup t domain_agents ≡ o) ((list_beq_iff d e).0 h) found

  contains-subtasks_for :
      (ds : List Text) (e : Text)
      → contains e (domains_of (subtasks_for domain_agents order ds))
        ≡ (contains e ds && is_some (lookup e domain_agents))
  unfolding contains subtask_for
  contains-subtasks_for [] e = unfold subtasks_for in refl
  contains-subtasks_for (d ∷ ds) e = elim (turn d ds) [
    | inl (missing, same) ↦
        rw same (ground (arith, contains-subtasks_for ds e, same_agent d e none missing))
    | inr (agent, found, same) ↦
        rw same (ground (arith, contains-subtasks_for ds e, same_agent d e (some agent) found))
  ]

  agents_known :
      (ds : List Text)
      → All
          (λ s. lookup s.domain domain_agents ≡ some s.agent)
          (subtasks_for domain_agents order ds)
  agents_known [] = unfold subtasks_for in tt
  agents_known (d ∷ ds) = elim (turn d ds) [
    | inl (missing, same) ↦ rw same (agents_known ds)
    | inr (agent, found, same) ↦ rw same (unfold subtask_for in found, agents_known ds)
  ]

  none_known :
      (ds : List Text)
      → is_empty (subtasks_for domain_agents order ds) ≡ true
      → (e : Text) → (contains e ds && is_some (lookup e domain_agents)) ≡ false
  none_known ds h e =
      sym (contains-subtasks_for ds e) ∙ no_elements (subtasks_for domain_agents order ds) h e

-- Each subtask goes to the agent of its domain, the domains with subtasks are those that were detected
-- and have an agent, and they stand in the order of priority; or no detected domain has an agent, and
-- the default agent gets the only subtask.
abbrev pub IsRouted : Dict Text Text → Text → List Text → List Text → List SubtaskProposal → Type 0
IsRouted domain_agents default_agent order domains subtasks =
    (All (λ s. lookup s.domain domain_agents ≡ some s.agent) subtasks
      × ((e : Text)
          → contains e (map (λ s. s.domain) subtasks)
            ≡ (contains e domains && is_some (lookup e domain_agents)))
      × IsRanked order (map (λ s. s.domain) subtasks))
    ⊎ ((subtasks ≡ default_subtask default_agent ∷ [])
        × ((e : Text) → (contains e domains && is_some (lookup e domain_agents)) ≡ false))

-- With a budget left and domains detected, the domain policy delegates: to the agents of exactly the
-- detected domains that have one, in the order of priority, or to the default agent when none has.
pub domain_based-IsRouted :
    (domain_agents : Dict Text Text) (default_agent : Text) (priority_order : Option (List Text))
    (c : DelegationContext)
    → is_budget_exhausted c ≡ false
    → is_empty c.domains_detected ≡ false
    → let o = domain_based domain_agents default_agent priority_order c in
      (o.decision ≡ delegate)
      × IsRouted domain_agents default_agent
          (order_or_keys priority_order domain_agents)
          c.domains_detected
          o.subtasks
unfolding domain_based
domain_based-IsRouted domain_agents default_agent priority_order c left some_there =
    let order = order_or_keys priority_order domain_agents in
    let domains = prioritized_domains order c.domains_detected in
    let same = contains-prioritized_domains order c.domains_detected in
    elim (Bool-cases (is_empty (subtasks_for domain_agents order domains))) [
      | inl unknown ↦
          rw (left, some_there, unknown)
            (
              refl,
              inr (
                refl,
                λ e.
                    ap (λ b. b && is_some (lookup e domain_agents)) (sym (same e))
                    ∙ none_known domain_agents order domains unknown e,
              ),
            )
      | inr known ↦
          rw (left, some_there, known)
            (
              refl,
              inl (
                agents_known domain_agents order domains,
                λ e.
                    contains-subtasks_for domain_agents order domains e
                    ∙ ap (λ b. b && is_some (lookup e domain_agents)) (same e),
                subtasks_for-IsRanked domain_agents order domains
                    (prioritized_domains-IsRanked order c.domains_detected),
              ),
            )
    ]

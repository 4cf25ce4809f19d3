-- ===== src/Core/Strategies/Cheapest.antt =====
-- The cheapest provider within a budget.
use mathlib.Core.List.{append_assoc, append-nil}
use dawn_kestrel.Prelude.{
  ℕ, ◌*◌, ◌≤◌, ◌<◌, ◌≡◌, refl, ap, subst, ◌∙◌, ◌⊎◌, inl, inr, true, false, ◌&&◌, Option, none, some,
  List, [], ◌∷◌, ◌++◌, ltb, if◌then◌else◌, Bool-cases, All, All-append, arith,
}
use dawn_kestrel.Core.Result.{Result, ok, is_err}
use dawn_kestrel.Core.Strategies.{
  affords, is_below, cheapest, suitable, select_cheapest, estimate_tokens,
}

All-mono {ℓ} :
    {A : Type ℓ} {P Q : A → Type 0} (f : (x : A) → P x → Q x) (xs : List A) → All P xs → All Q xs
All-mono f [] h = tt
All-mono f (x ∷ xs) (first, h) = (f x first, All-mono f xs h)

module _ {P : Type 0} (price : P → ℕ) (tokens : ℕ) (budget : Option ℕ) where
  -- what a provider costs
  abbrev pub cost_of : P → ℕ
  cost_of p = tokens * price p

  -- not within the budget, or dearer
  abbrev pub IsDearer : ℕ → P → Type 0
  IsDearer cost p = (affords budget (cost_of p) ≡ false) ⊎ (cost < cost_of p)

  abbrev pub IsNoCheaper : ℕ → P → Type 0
  IsNoCheaper cost p = (affords budget (cost_of p) ≡ false) ⊎ (cost ≤ cost_of p)

  -- The cheapest of those within the budget, the first of several: what the loop keeps.
  abbrev pub IsBest : List P → Option (P × ℕ) → Type 0
  IsBest ps none = All (λ p. affords budget (cost_of p) ≡ false) ps
  IsBest ps (some (q, cost)) =
      (front back : List P) × (ps ≡ front ++ q ∷ back)
      × (cost ≡ cost_of q)
      × (affords budget cost ≡ true)
      × All (IsDearer cost) front
      × All (IsNoCheaper cost) back

  -- one turn of the loop
  abbrev turn : P → Option (P × ℕ) → Option (P × ℕ)
  turn p best =
      if is_below (cost_of p) best && affords budget (cost_of p) then some (p, cost_of p) else best

  no_cheaper : (c : ℕ) (q : P) → IsDearer c q → IsNoCheaper c q
  no_cheaper c q (inl beyond) = inl beyond
  no_cheaper c q (inr less) = inr (omega arith)

  dearer : (cost c : ℕ) (q : P) → cost < c → IsNoCheaper c q → IsDearer cost q
  dearer cost c q less (inl beyond) = inl beyond
  dearer cost c q less (inr le) = inr (omega arith)

  kept-IsNoCheaper :
      (c : ℕ) (p : P) → (ltb (cost_of p) c && affords budget (cost_of p)) ≡ false → IsNoCheaper c p
  kept-IsNoCheaper c p h = elim (Bool-cases (affords budget (cost_of p))) [
    | inl within ↦ inr (ground arith)
    | inr beyond ↦ inl beyond
  ]

  turn-IsBest :
      (seen : List P) (p : P) (best : Option (P × ℕ))
      → IsBest seen best
      → IsBest (seen ++ p ∷ []) (turn p best)
  turn-IsBest seen p none h = elim (Bool-cases (affords budget (cost_of p))) [
    | inl within ↦ rw within (seen, [], refl, refl, within, All-mono (λ q. inl) seen h, tt)
    | inr beyond ↦ rw beyond (All-append _ seen (p ∷ []) h (beyond, tt))
  ]
  turn-IsBest seen p (some (q, c)) (front, back, split, cost, fits, dear, rest) =
      elim (Bool-cases (ltb (cost_of p) c && affords budget (cost_of p))) [
        | inl better ↦
            let cheaper : cost_of p < c = ground arith in
            rw better (
              seen,
              [],
              refl,
              refl,
              ground arith,
              rw split (
                  All-append _ front (q ∷ back)
                    (All-mono (λ r d. dearer _ c r cheaper (no_cheaper c r d)) front dear)
                    (
                      inr (omega (arith, cost)),
                      All-mono (λ r d. dearer _ c r cheaper d) back rest,
                    )),
              tt,
            )
        | inr worse ↦ rw worse (
          front,
          back ++ p ∷ [],
          ap (λ l. l ++ p ∷ []) split ∙ append_assoc front (q ∷ back) (p ∷ []),
          cost,
          fits,
          dear,
          All-append _ back (p ∷ []) rest (kept-IsNoCheaper c p worse, tt),
        )
      ]

  cheapest-IsBest :
      (seen ps : List P) (best : Option (P × ℕ))
      → IsBest seen best
      → IsBest (seen ++ ps) (cheapest price tokens budget ps best)
  unfolding cheapest
  cheapest-IsBest seen [] best h = rw append-nil h
  cheapest-IsBest seen (p ∷ ps) best h =
      subst (λ l. IsBest l (cheapest price tokens budget ps (turn p best)))
        (append_assoc seen (p ∷ []) ps)
        (cheapest-IsBest (seen ++ p ∷ []) ps (turn p best) (turn-IsBest seen p best h))

-- what an answer promises about some providers
abbrev pub Chooses : {P : Type 0} → (P → ℕ) → ℕ → Option ℕ → List P → Result P → Type 0
Chooses {P = P} price tokens budget ps r =
    ((q : P) × (cost : ℕ) × (r ≡ ok q) × IsBest price tokens budget ps (some (q, cost)))
    ⊎ ((is_err r ≡ true) × All (λ p. affords budget (tokens * price p) ≡ false) ps)

chosen :
    {P : Type 0} (price : P → ℕ) (tokens : ℕ) (budget : Option ℕ) (ps : List P)
    (best : Option (P × ℕ))
    → IsBest price tokens budget ps best
    → Chooses price tokens budget ps (suitable best)
unfolding suitable
chosen price tokens budget ps none h = inr (refl, h)
chosen price tokens budget ps (some (q, cost)) h = inl (q, cost, refl, h)

-- The provider that is chosen costs, for the tokens of the messages, no more than the budget; each
-- provider before it in the list is beyond the budget or strictly dearer, and each one after it
-- beyond the budget or no cheaper. It is an error exactly when all are beyond the budget.
pub select_cheapest-Chooses :
    {P : Type 0} (price : P → ℕ) (messages : List ℕ) (budget : Option ℕ) (ps : List P)
    → Chooses price (estimate_tokens messages) budget ps (select_cheapest price messages budget ps)
unfolding select_cheapest
select_cheapest-Chooses price messages budget [] = inr (refl, tt)
select_cheapest-Chooses price messages budget (p ∷ ps) =
    chosen price (estimate_tokens messages) budget (p ∷ ps) _
      (cheapest-IsBest price (estimate_tokens messages) budget [] (p ∷ ps) none tt)

-- ===== src/Core/Strategies.antt =====
-- dawn_kestrel/core/strategies.py: the choice of a provider and of a strategy. `P` is the type of
-- providers; prices and budgets are whole numbers of one unit.
pub mod Choice
pub mod Cheapest
use dawn_kestrel.Prelude.{
  ℕ, zero, suc, ◌+◌, ◌*◌, ◌/◌, ◌%◌, String, Bool, true, false, ◌&&◌, Option, none, some, List, [],
  ◌∷◌, length, Dict, lookup, insert, text, ◌&◌, Outcome, returns, raises, leb, ltb, if◌then◌else◌,
  string_eq, ◌==◌,
}
use dawn_kestrel.Core.Result.{Result, ok, err_code}

-- `xs[i]`
abbrev pub get_elem? {ℓ} : {A : Type ℓ} → List A → ℕ → Option A
get_elem? [] i = none
get_elem? (x ∷ xs) zero = some x
get_elem? (x ∷ xs) (suc i) = get_elem? xs i

unfoldable pub estimate_tokens : List ℕ → ℕ
estimate_tokens [] = 0
estimate_tokens (len ∷ messages) = len / 4 + estimate_tokens messages

-- within a budget, if there is one
abbrev pub affords : Option ℕ → ℕ → Bool
affords none cost = true
affords (some budget) cost = leb cost budget

-- `context.get("environment") == "production"`
abbrev pub is_production : Option String → Bool
is_production none = false
is_production (some environment) = environment == "production"

module _ {P : Type 0} where
  -- The round robin's state is its index. An index past the end raises `IndexError`.
  unfoldable pub picked : List P → ℕ → Option P → Outcome (Result P) × ℕ
  picked providers index none = (raises (text "list index out of range"), index)
  picked providers index (some p) = (returns (ok p), (index + 1) % length providers)

  unfoldable pub select_in_turn : List P → ℕ → Outcome (Result P) × ℕ
  unfolding picked
  select_in_turn [] index =
      (returns (err_code (text "No providers available") "NO_PROVIDERS"), index)
  select_in_turn (p ∷ ps) index = picked (p ∷ ps) index (get_elem? (p ∷ ps) index)

  -- below the cheapest so far, which starts at infinity
  abbrev pub is_below : ℕ → Option (P × ℕ) → Bool
  is_below cost none = true
  is_below cost (some (p, best)) = ltb cost best

  -- the loop over the providers; `price` is what `_get_pricing` finds
  unfoldable pub cheapest : (P → ℕ) → ℕ → Option ℕ → List P → Option (P × ℕ) → Option (P × ℕ)
  cheapest price tokens budget [] best = best
  cheapest price tokens budget (p ∷ ps) best =
      let cost = tokens * price p in
      cheapest price tokens budget ps
        (if is_below cost best && affords budget cost then some (p, cost) else best)

  unfoldable pub suitable : Option (P × ℕ) → Result P
  suitable none = err_code (text "No suitable provider found") "NO_PROVIDER"
  suitable (some (p, cost)) = ok p

  unfoldable pub select_cheapest : (P → ℕ) → List ℕ → Option ℕ → List P → Result P
  unfolding cheapest suitable estimate_tokens
  select_cheapest price messages budget [] = err_code (text "No providers available") "NO_PROVIDERS"
  select_cheapest price messages budget (p ∷ ps) =
      suitable (cheapest price (estimate_tokens messages) budget (p ∷ ps) none)

-- `Strategy` is the type of what is registered; `cost_optimized` makes a `CostOptimizedRouting()`.
module _ {Strategy : Type 0} (cost_optimized : Strategy) where
  unfoldable pub register : String → Strategy → Dict String Strategy → Dict String Strategy
  register name strategy strategies = insert name strategy strategies

  -- `next(iter(self._strategies))`
  unfoldable pub first_strategy : Dict String Strategy → Strategy → Strategy
  first_strategy [] found = found
  first_strategy ((name, s) ∷ rest) found = s

  unfoldable pub select : Dict String Strategy → String → Option String → Result Strategy
  unfolding first_strategy
  select strategies strategy_type environment = elim (lookup strategy_type strategies) [
    | none ↦ err_code (text "Strategy not found: " & text strategy_type) "STRATEGY_NOT_FOUND"
    | some found ↦
        if is_production environment && strategy_type == "routing"
        then ok cost_optimized
        else ok (first_strategy strategies found)
  ]

-- ===== src/Core/Strategies/Choice.antt =====
-- Which provider is chosen, and which strategy.
use native.Mathlib.Nat.{mod-add-mod, zero-mod}
use dawn_kestrel.Prelude.{
  ℕ, zero, suc, ◌+◌, ◌%◌, ◌<◌, ◌≡◌, refl, subst, Option, none, some, List, [], ◌∷◌, length, Outcome,
  returns, raises, text, map, string_eq, arith,
}
use dawn_kestrel.Core.Result.{Result, ok}
use dawn_kestrel.Core.Strategies.{get_elem?, picked, select_in_turn}

module _ {P : Type 0} where
  -- `n` requests in a row, with the providers that they get
  pub requests : List P → ℕ → ℕ → List (Outcome (Result P)) × ℕ
  requests providers zero index = ([], index)
  requests providers (suc n) index =
      let (answer, index') = select_in_turn providers index in
      let (answers, last) = requests providers n index' in (answer ∷ answers, last)

  get_elem?_within : (ps : List P) (i : ℕ) → i < length ps → (p : P) × (get_elem? ps i ≡ some p)
  get_elem?_within [] i h = absurd (omega arith)
  get_elem?_within (p ∷ ps) zero h = (p, refl)
  get_elem?_within (p ∷ ps) (suc i) h = get_elem?_within ps i (omega arith)

  -- the providers in turn, from an index on
  pub in_turn : List P → ℕ → ℕ → List (Option P)
  in_turn providers zero index = []
  in_turn providers (suc n) index =
      get_elem? providers (index % length providers) ∷ in_turn providers n (index + 1)

  select_in_turn-get_elem? :
      (p : P) (ps : List P) (index : ℕ)
      → index < length (p ∷ ps)
      → (q : P) × (get_elem? (p ∷ ps) index ≡ some q)
        × (select_in_turn (p ∷ ps) index ≡ (returns (ok q), (index + 1) % length (p ∷ ps)))
  unfolding select_in_turn picked
  select_in_turn-get_elem? p ps index h =
      let (q, found) = get_elem?_within (p ∷ ps) index h in (q, found, rw (found, picked) refl)

  -- an answer that a provider gives
  abbrev pub answered : Option P → Outcome (Result P)
  answered none = raises (text "list index out of range")
  answered (some p) = returns (ok p)

  requests_from :
      (p : P) (ps : List P) (n index : ℕ)
      → (requests (p ∷ ps) n (index % length (p ∷ ps))).0 ≡ map answered (in_turn (p ∷ ps) n index)
  unfolding requests in_turn
  requests_from p ps zero index = refl
  requests_from p ps (suc n) index =
      let (q, found, step) =
        select_in_turn-get_elem? p ps (index % length (p ∷ ps)) (grind arith) in
      let next = mod-add-mod index (length (p ∷ ps)) 1 in
      rw step (rw next (rw found (rw (requests_from p ps n (index + 1)) refl)))

  -- As long as the providers stay the same, the round robin gives each request the next one in turn,
  -- from the first, and begins again after the last; none of the requests fails.
  pub requests-in_turn :
      (p : P) (ps : List P) (n : ℕ)
      → (requests (p ∷ ps) n 0).0 ≡ map answered (in_turn (p ∷ ps) n 0)
  requests-in_turn p ps n =
      subst (λ i. (requests (p ∷ ps) n i).0 ≡ map answered (in_turn (p ∷ ps) n 0))
        (zero-mod (length (p ∷ ps))) (requests_from p ps n 0)

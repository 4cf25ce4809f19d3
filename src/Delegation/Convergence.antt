-- ===== src/Delegation/Convergence.antt =====
-- When the tracker of dawn_kestrel/delegation/convergence.py reports convergence.
use dawn_kestrel.Prelude.{
  ℕ, zero, suc, ◌+◌, String, Outcome, returns, false, some, List, [], ◌∷◌, get_last?,
  get_last?-append, replicate, leb, if◌then◌else◌, string_eq, option_eq, ◌==◌, ◌≡◌, refl, ◌∙◌,
  arith, inl, inr, Bool-cases,
}
use dawn_kestrel.Delegation.{ConvergenceTracker, note, noted, check_novelty, is_converged}

last-note : (t : ConvergenceTracker) (s : String) → get_last? (note t s).1.signatures ≡ some s
unfolding note
last-note t s = elim (Bool-cases (get_last? t.signatures == some s)) [
  | inl same ↦ rw same ((option_eq.same_iff (get_last? t.signatures) (some s)).0 same)
  | inr new ↦ rw new (get_last?-append t.signatures s)
]

count-note :
    (t : ConvergenceTracker) (s : String)
    → (note t s).1.stagnation_count
      ≡ (if get_last? t.signatures == some s then t.stagnation_count + 1 else 0)
unfolding note
count-note t s = elim (Bool-cases (get_last? t.signatures == some s)) [
  | inl same ↦ rw same
  | inr new ↦ rw new
]

module _ {R : Type 0} (compute_signature : List R → Outcome String) where
  -- one result after the other, as the engine checks them
  unfoldable pub check_each : ConvergenceTracker → List R → ConvergenceTracker
  check_each t [] = t
  check_each t (r ∷ rs) = check_each (check_novelty compute_signature t (r ∷ [])).1 rs

  repeated :
      (n : ℕ) (r : R) (sig : String) (t : ConvergenceTracker)
      → compute_signature (r ∷ []) ≡ returns sig
      → get_last? t.signatures ≡ some sig
      → (check_each t (replicate n r)).stagnation_count ≡ t.stagnation_count + n
  unfolding check_each check_novelty noted
  repeated zero r sig t known h = omega arith
  repeated (suc n) r sig t known h =
      let same = (option_eq.same_iff (get_last? t.signatures) (some sig)).1 h in
      let more : (note t sig).1.stagnation_count ≡ t.stagnation_count + 1 =
        count-note t sig ∙ rw same in
      rw (known, check_each, check_novelty, noted)
        (omega (arith, repeated n r sig (note t sig).1 known (last-note t sig)))

  -- When a result whose signature is not the last one seen is followed by `n` repetitions of it, the
  -- tracker is converged exactly for the thresholds up to `n`, whatever came before.
  pub is_converged-check_each :
      (t : ConvergenceTracker) (r : R) (sig : String) (n threshold : ℕ)
      → compute_signature (r ∷ []) ≡ returns sig
      → (get_last? t.signatures == some sig) ≡ false
      → is_converged (check_each t (r ∷ replicate n r)) threshold ≡ leb threshold n
  unfolding is_converged check_each check_novelty noted
  is_converged-check_each t r sig n threshold known h =
      let one : (note t sig).1.stagnation_count ≡ 0 = count-note t sig ∙ rw h in
      let total : (check_each (note t sig).1 (replicate n r)).stagnation_count ≡ n =
        omega (arith, repeated n r sig (note t sig).1 known (last-note t sig)) in
      rw (known, check_each, check_novelty, noted, total) refl

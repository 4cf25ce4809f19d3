-- ===== src/Core/Fsm/Workflow/Novelty.antt =====
-- The stagnation and budget tests of `WorkflowFSMBuilder` (dawn_kestrel/core/fsm.py).
use dawn_kestrel.Prelude.{
  ℕ, zero, suc, ◌+◌, ◌≤◌, String, ◌≡◌, refl, true, false, List, [], ◌∷◌, ◌++◌, contains, add, inl,
  inr, leb, length, replicate, length-append, ==_refl, if◌then◌else◌, string_eq, arith, Bool-cases,
}
use dawn_kestrel.Core.Fsm.Workflow.{
  WorkflowFsmBuilder, check_novelty, is_stagnation_detected, is_budget_exceeded,
  track_budget_consumed,
}

module _ {ℓ} {W : Type 0} {D : Type ℓ} (signature : D → String) where
  -- checks of one datum after the other: how many were novel, and the builder after them
  unfoldable pub check_all : List D → WorkflowFsmBuilder W → ℕ × WorkflowFsmBuilder W
  check_all [] b = (0, b)
  check_all (d ∷ ds) b =
      let (novel, b') = check_novelty signature d b in
      let (n, b'') = check_all ds b' in (if novel then suc n else n, b'')

  check_all-length :
      (ds : List D) (b : WorkflowFsmBuilder W)
      → (length (check_all ds b).1.novelty_signatures
          ≡ length b.novelty_signatures + (check_all ds b).0)
        × ((check_all ds b).1.stagnation_threshold ≡ b.stagnation_threshold)
  unfolding check_all check_novelty add
  check_all-length [] b = (omega arith, refl)
  check_all-length (d ∷ ds) b = elim (Bool-cases (contains (signature d) b.novelty_signatures)) [
    | inl old ↦ rw old (check_all-length ds b)
    | inr new ↦
        let b' = record b { novelty_signatures = b.novelty_signatures ++ signature d ∷ [] } in
        let ih = check_all-length ds b' in
        rw new (omega (arith, ih.0, length-append b.novelty_signatures (signature d ∷ [])), ih.1)
  ]

  -- Stagnation is reported exactly when the number of signatures already kept plus the number of
  -- checks that found something new reaches the threshold: it counts novelty, and not repetition.
  pub is_stagnation_detected-check_all :
      (ds : List D) (b : WorkflowFsmBuilder W)
      → is_stagnation_detected (check_all ds b).1
        ≡ leb b.stagnation_threshold (length b.novelty_signatures + (check_all ds b).0)
  unfolding is_stagnation_detected
  is_stagnation_detected-check_all ds b = let h = check_all-length ds b in rw (h.0, h.1)

  known_datum :
      (d : D) (b : WorkflowFsmBuilder W)
      → contains (signature d) b.novelty_signatures ≡ true
      → (n : ℕ) → (check_all (replicate n d) b) ≡ (0, b)
  unfolding check_all check_novelty
  known_datum d b k zero = refl
  known_datum d b k (suc n) = rw k (rw (known_datum d b k n))

  repeated-le :
      (d : D) (n : ℕ) (b : WorkflowFsmBuilder W)
      → b.novelty_signatures ≡ []
      → (check_all (replicate n d) b).0 ≤ 1
  unfolding check_all check_novelty add contains
  repeated-le d zero b fresh = omega arith
  repeated-le d (suc n) b fresh =
      let b' = record b { novelty_signatures = signature d ∷ [] } in
      let kept : contains (signature d) b'.novelty_signatures ≡ true =
        rw (==_refl (signature d)) refl in
      rw fresh (rw (known_datum d b' kept n) (omega arith))

  -- However often one and the same datum comes back, a workflow without signatures whose threshold
  -- is two or more never reports stagnation.
  pub repetition_undetected :
      (d : D) (n : ℕ) (b : WorkflowFsmBuilder W)
      → b.novelty_signatures ≡ []
      → 2 ≤ b.stagnation_threshold
      → is_stagnation_detected (check_all (replicate n d) b).1 ≡ false
  unfolding is_stagnation_detected
  repetition_undetected d n b fresh h =
      let (e, same) = check_all-length (replicate n d) b in
      rw (e, same, fresh) (ground (arith, repeated-le d n b fresh))

module _ {W : Type 0} where
  -- An exceeded budget stays exceeded, whatever is consumed afterwards.
  pub is_budget_exceeded-track :
      (i t s c : ℕ) (b : WorkflowFsmBuilder W)
      → is_budget_exceeded b ≡ true
      → is_budget_exceeded (track_budget_consumed i t s c b) ≡ true
  unfolding is_budget_exceeded track_budget_consumed
  is_budget_exceeded-track i t s c b h = ground arith

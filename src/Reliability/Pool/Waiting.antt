-- ===== src/Reliability/Pool/Waiting.antt =====
-- `wait_for_completion` of dawn_kestrel/reliability/queue_worker.py, which sleeps 0.1 seconds in each
-- turn of its loop. Times are in milliseconds.
use dawn_kestrel.Prelude.{
  ℕ, suc, ◌+◌, ◌*◌, ◌/◌, ◌≤◌, ◌<◌, Bool, false, ◌||◌, Option, none, some, List, [], ◌∷◌, length,
  if◌then◌else◌, text, leb, ◌≡◌, ◌≢◌, refl, arith, inl, inr, Bool-cases,
}
use dawn_kestrel.Core.Result.{Result, ok, err_code}
use dawn_kestrel.Reliability.Workers.{Shared}
use dawn_kestrel.Reliability.Pool.{is_complete, wait_for_completion}

module _ {P : Type 0} where
  -- the first turn that ends the loop
  abbrev pub decisive : Option ℕ → List (Shared P × ℕ) → Option (Shared P × ℕ)
  decisive timeout [] = none
  decisive timeout ((s, elapsed) ∷ later) =
      let rest = decisive timeout later in
      let over : Bool = elim timeout [ none ↦ false | some t ↦ leb t elapsed ] in
      if is_complete s || over then some (s, elapsed) else rest

  abbrev pub verdict : Shared P × ℕ → Result (Unit {0})
  verdict (s, elapsed) =
      if is_complete s then ok tt else err_code (text "Timeout waiting for completion") "TIMEOUT"

  -- turn `k` starts no earlier than `100 * k`
  abbrev pub Paced : ℕ → List (Shared P × ℕ) → Type 0
  Paced k [] = Unit
  Paced k ((s, elapsed) ∷ later) = (100 * k ≤ elapsed) × Paced (suc k) later

  -- The wait ends at the first turn that sees the pool complete or the timeout passed, with `Ok`
  -- exactly if it sees the pool complete.
  pub wait_for_completion-decisive :
      (timeout : Option ℕ) (turns : List (Shared P × ℕ))
      → wait_for_completion timeout turns
        ≡ elim (decisive timeout turns) [ none ↦ none | some turn ↦ some (verdict turn) ]
  unfolding wait_for_completion
  wait_for_completion-decisive timeout [] = refl
  wait_for_completion-decisive none ((s, e) ∷ later) =
      ground (arith, wait_for_completion-decisive none later)
  wait_for_completion-decisive (some t) ((s, e) ∷ later) =
      ground (arith, wait_for_completion-decisive (some t) later)

  returns_by :
      (t k : ℕ) (turns : List (Shared P × ℕ))
      → Paced k turns
      → t + 100 ≤ 100 * (k + length turns)
      → 100 * k < t + 100
      → wait_for_completion (some t) turns ≢ none
  unfolding wait_for_completion
  returns_by t k [] h le lt = omega arith
  returns_by t k ((s, e) ∷ later) h le lt = elim (Bool-cases (is_complete s)) [
    | inl complete ↦ rw complete (λ e. cc)
    | inr waits ↦ elim (Bool-cases (leb t e)) [
      | inl over ↦ rw (waits, over) (λ e. cc)
      | inr under ↦
          let early : e < t = ground arith in
          rw (waits, under) (returns_by t (suc k) later h.1 (omega arith) (omega arith))
    ]
  ]

  -- A wait with a timeout of `t` milliseconds returns: `t / 100 + 2` turns, each 0.1 seconds after the
  -- one before, are enough, whatever they see.
  pub wait_for_completion-returns :
      (t : ℕ) (turns : List (Shared P × ℕ))
      → Paced 0 turns
      → t / 100 + 2 ≤ length turns
      → wait_for_completion (some t) turns ≢ none
  wait_for_completion-returns t turns h le = returns_by t 0 turns h (omega arith) (omega arith)

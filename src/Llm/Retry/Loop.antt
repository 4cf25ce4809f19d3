-- ===== src/Llm/Retry/Loop.antt =====
-- The loop over the attempts of dawn_kestrel/llm/retry.py.
use dawn_kestrel.Prelude.{
  ℕ, zero, suc, ◌+◌, ◌≤◌, String, ◌≡◌, refl, inl, inr, Option, none, some, List, contains, ltb,
  text, Outcome, returns, raises, arith, string_eq, option_eq, Bool-cases,
}
use dawn_kestrel.Core.Result.{Result, ok, err, pass, err_code}
use dawn_kestrel.Llm.Retry.{
  Backoff, Reply, result, value, rate_limited, exception, Stats, Step, finish, again, judge,
  started, retried, pause, attempts,
}

-- calls that have ended: with a success, or with a failure
abbrev pub ended : Stats → ℕ
ended s = s.successful_calls + s.failed_calls

-- what judging a reply leaves of the counters
pub record Untouched (s t : Stats) : Type 0 where
  pub calls : t.total_calls ≡ s.total_calls
  pub total : t.total_attempts ≡ s.total_attempts
  pub count : t.last_attempt_count ≡ s.last_attempt_count

module _ {A : Type 0} where
  -- An attempt that ends the call by an answer counts it once; one that does not counts nothing.
  abbrev pub Judged : Stats → Step A → Type 0
  Judged s (finish (returns r) t) = (ended t ≡ suc (ended s)) × Untouched s t
  Judged s (finish (raises m) t) = (ended t ≡ ended s) × Untouched s t
  Judged s (again r t) = (ended t ≡ ended s) × Untouched s t

  pub judge-Judged :
      (transient : List String) (reply : Reply A) (s : Stats) → Judged s (judge transient reply s)
  unfolding judge
  judge-Judged transient (result (ok a)) s = omega arith
  judge-Judged transient (result (err e)) s = elim (Bool-cases e.retryable) [
    | inl h ↦ rw h (omega arith)
    | inr h ↦ rw h (omega arith)
  ]
  judge-Judged transient (result (pass m)) s = omega arith
  judge-Judged transient (value a) s = omega arith
  judge-Judged transient (rate_limited m) s = omega arith
  judge-Judged transient (exception kind m) s = elim (Bool-cases (contains kind transient)) [
    | inl h ↦ rw h (omega arith)
    | inr h ↦ rw h (omega arith)
  ]

-- whether the call came back, and did not raise
abbrev pub came_back {ℓ} : {A : Type ℓ} → Outcome A → ℕ
came_back (returns a) = 1
came_back (raises m) = 0

module _ {A W : Type 0} (uniform : ℕ → ℕ) (sleep : ℕ → W → W) (operation : W → Reply A × W)
    (transient : List String) (strategy : Backoff) (top : ℕ) where
  abbrev pub loop : ℕ → ℕ → Option (Result A) → Stats → W → Outcome (Result A) × Stats × W
  loop = attempts uniform sleep operation transient strategy top

  -- what the loop has counted when it is left, from its counters and its place at the start
  abbrev pub Counted : ℕ → ℕ → Stats → Outcome (Result A) × Stats × W → Type 0
  Counted left attempt s (answer, s', w) =
      (ended s' ≡ ended s + came_back answer)
      × (s'.total_calls ≡ s.total_calls)
      × (attempt ≤ s'.last_attempt_count)
      × (s'.last_attempt_count ≤ attempt + left)
      × (s'.total_attempts + attempt ≡ s.total_attempts + s'.last_attempt_count)

  pub loop-Counted :
      (left attempt : ℕ) (last : Option (Result A)) (s : Stats) (w : W)
      → s.last_attempt_count ≡ attempt
      → Counted left attempt s (loop left attempt last s w)
  unfolding attempts
  loop-Counted zero attempt none s w h = omega arith
  loop-Counted zero attempt (some r) s w h = omega arith
  loop-Counted (suc left) attempt last s w h =
      let w' = (operation w).1 in
      step (judge transient (operation w).0 (started attempt s))
        (judge-Judged transient (operation w).0 (started attempt s))
        (λ r t.
          loop-Counted left (attempt + 1) (some r) (retried t)
            (pause uniform sleep operation transient strategy top attempt w'))
    where
      step :
          (st : Step A)
          → Judged (started attempt s) st
          → ((r : Result A) (t : Stats)
              → t.last_attempt_count ≡ attempt + 1
              → Counted left (attempt + 1) (retried t) (
                  loop left
                    (attempt + 1)
                    (some r)
                    (retried t)
                    (pause uniform sleep operation transient strategy top attempt (operation w).1)))
          → Counted (suc left) attempt s (elim st [
            | finish answer t ↦ (answer, t, (operation w).1)
            | again error t ↦
                loop left
                  (attempt + 1)
                  (some error)
                  (retried t)
                  (pause uniform sleep operation transient strategy top attempt (operation w).1)
          ])
      step (finish (returns r) t) j rec = omega arith
      step (finish (raises m) t) j rec = omega arith
      step (again r t) j rec = omega (arith, rec r t (j.1.count))

  module _ (calls : W → ℕ) (called : (w : W) → calls (operation w).1 ≡ calls w + 1)
      (slept : (d : ℕ) (w : W) → calls (sleep d w) ≡ calls w) where
    calls-pause :
        (attempt : ℕ) (w : W)
        → calls (pause uniform sleep operation transient strategy top attempt w) ≡ calls w
    unfolding pause
    calls-pause attempt w = elim (Bool-cases (ltb (attempt + 1) top)) [
      | inl h ↦ rw h (slept _ w)
      | inr h ↦ rw h
    ]

    abbrev pub Called : ℕ → ℕ → Outcome (Result A) × Stats × W → Type 0
    Called attempt n (answer, s', w') = calls w' + attempt ≡ n + s'.last_attempt_count

    pub loop-Called :
        (left attempt : ℕ) (last : Option (Result A)) (s : Stats) (w : W)
        → s.last_attempt_count ≡ attempt
        → Called attempt (calls w) (loop left attempt last s w)
    unfolding attempts
    loop-Called zero attempt none s w h = omega arith
    loop-Called zero attempt (some r) s w h = omega arith
    loop-Called (suc left) attempt last s w h =
        step (judge transient (operation w).0 (started attempt s))
          (judge-Judged transient (operation w).0 (started attempt s))
          (λ r t.
            loop-Called left (attempt + 1) (some r) (retried t)
              (pause uniform sleep operation transient strategy top attempt (operation w).1))
      where
        step :
            (st : Step A)
            → Judged (started attempt s) st
            → ((r : Result A) (t : Stats)
                → t.last_attempt_count ≡ attempt + 1
                → Called
                    (attempt + 1)
                    (calls (
                      pause uniform sleep operation transient strategy top attempt (operation w).1))
                    (loop left (attempt + 1) (some r) (retried t) (
                      pause uniform sleep operation transient strategy top attempt
                        (operation w).1)))
            → Called attempt (calls w) (elim st [
              | finish answer t ↦ (answer, t, (operation w).1)
              | again error t ↦
                  loop left
                    (attempt + 1)
                    (some error)
                    (retried t)
                    (pause uniform sleep operation transient strategy top attempt (operation w).1)
            ])
        step (finish (returns r) t) j rec = omega (arith, called w)
        step (finish (raises m) t) j rec = omega (arith, called w)
        step (again r t) j rec =
            omega (arith, called w, calls-pause attempt (operation w).1, rec r t (j.1.count))

  module _
      (retries : (w : W) (s : Stats)
        → (r : Result A) × (judge transient (operation w).0 s ≡ again r s)) where
    abbrev pub exceeded_error : Outcome (Result A)
    exceeded_error = returns (err_code (text "MAX_RETRIES_EXCEEDED") "MAX_RETRIES_EXCEEDED")

    pub loop_exhausts :
        (left attempt : ℕ) (last : Option (Result A)) (s : Stats) (w : W)
        → s.last_attempt_count ≡ attempt
        → ((loop left attempt last s w).0 ≡ exceeded_error)
          × ((loop left attempt last s w).1.last_attempt_count ≡ attempt + left)
    unfolding attempts
    loop_exhausts zero attempt none s w h = (refl, omega arith)
    loop_exhausts zero attempt (some r) s w h = (refl, omega arith)
    loop_exhausts (suc left) attempt last s w h =
        let (r, e) = retries w (started attempt s) in
        let t = retried (started attempt s) in
        let w' = pause uniform sleep operation transient strategy top attempt (operation w).1 in
        let ih = loop_exhausts left (attempt + 1) (some r) t w' refl in
        rw (e, attempts) (ih.0, omega arith)

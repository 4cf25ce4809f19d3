-- ===== src/Llm/Bulkhead/Leak.antt =====
-- dawn_kestrel/llm/bulkhead.py: which permits come back.
use dawn_kestrel.Prelude.{
  ℕ, zero, suc, ◌-◌, ◌≤◌, ◌<◌, String, true, false, none, some, lookup, string_eq, ◌≡◌, refl, ap,
  ◌∙◌, arith,
}
use dawn_kestrel.Core.Result.{Result}
use dawn_kestrel.Llm.Bulkhead.{
  Bulkhead, set_limit, try_acquire, release, permits, try_execute, run_held, ending, timed_out,
  get_timeout, Ending,
}
use dawn_kestrel.Llm.Bulkhead.Semaphores.{permits-some, is_held, acquired, released, refused}

-- `n` tasks take a permit, and `n` tasks give one back
unfoldable pub acquires : ℕ → Bulkhead → String → Bulkhead
acquires zero b r = b
acquires (suc n) b r = acquires n (try_acquire b r).1 r

unfoldable pub releases : ℕ → Bulkhead → String → Bulkhead
releases zero b r = b
releases (suc n) b r = releases n (release b r).1 r

acquires_take :
    (n : ℕ) (b : Bulkhead) (r : String)
    → suc n ≤ permits b r
    → (permits (acquires (suc n) b r) r ≡ permits b r - suc n)
      × (is_held (acquires (suc n) b r) r ≡ true)
unfolding acquires
acquires_take zero b r h = let a = acquired b r h in (a.1, a.2)
acquires_take (suc n) b r h =
    let a = acquired b r (omega arith) in
    let (p, held) = acquires_take n (try_acquire b r).1 r (omega arith) in (omega arith, held)

releases_none : (n : ℕ) (b : Bulkhead) (r : String) → is_held b r ≡ false → releases n b r ≡ b
unfolding releases
releases_none zero b r h = refl
releases_none (suc n) b r h = rw (refused b r h) (releases_none n b r h)

-- When `n + 1` tasks take a permit of one resource and then all give theirs back, one permit comes
-- back: `n` are lost, because the first release forgets that the semaphore was acquired.
pub releases-acquires :
    (n : ℕ) (b : Bulkhead) (r : String)
    → suc n ≤ permits b r
    → permits (releases (suc n) (acquires (suc n) b r) r) r ≡ permits b r - n
unfolding releases
releases-acquires n b r h =
    let (p, held) = acquires_take n b r h in
    let back = released (acquires (suc n) b r) r held in
    rw (releases_none n (release (acquires (suc n) b r) r).1 r back.1) (omega arith)

try_acquire_answer :
    (b : Bulkhead) (r : String) (free n : ℕ)
    → lookup r b.semaphores ≡ some free
    → (try_acquire (set_limit b r n) r).0 ≡ (try_acquire b r).0
unfolding try_acquire set_limit timed_out get_timeout
try_acquire_answer b r free n h =
    let same = permits-some b r free h in
    let also = permits-some (set_limit b r n) r free h in rw (same, also) (ground arith)

module _ {A : Type 0} where
  -- A call of `try_execute` without `max_concurrent` that no other overlaps, and that finds a
  -- free permit, gives its permit back however the awaited call ends, and answers as it ended.
  pub try_execute-permits :
      (b : Bulkhead) (r : String) (e : Ending A)
      → 0 < permits b r
      → ((try_execute b r e none).0 ≡ ending r e)
        × (permits (try_execute b r e none).1 r ≡ permits b r)
  unfolding try_execute
  try_execute-permits b r e h =
      let (a, p, held) = acquired b r h in
      let back = released (try_acquire b r).1 r held in (rw a refl, rw a (omega arith))

  run_held_answer :
      (b c : Bulkhead) (r : String) (e : Ending A) (x : Result String)
      → (run_held b r e x).0 ≡ (run_held c r e x).0
  unfolding run_held
  run_held_answer b c r e (Result.ok s) = refl
  run_held_answer b c r e (Result.err x) = refl
  run_held_answer b c r e (Result.pass m) = refl

  -- Once the resource has a semaphore, the argument `max_concurrent` changes no answer.
  pub try_execute-max_concurrent :
      (b : Bulkhead) (r : String) (e : Ending A) (free n : ℕ)
      → lookup r b.semaphores ≡ some free
      → (try_execute b r e (some n)).0 ≡ (try_execute b r e none).0
  unfolding try_execute
  try_execute-max_concurrent b r e free n h =
      run_held_answer (try_acquire (set_limit b r n) r).1 (try_acquire b r).1 r e
        (try_acquire (set_limit b r n) r).0
      ∙ ap (λ x. (run_held (try_acquire b r).1 r e x).0) (try_acquire_answer b r free n h)

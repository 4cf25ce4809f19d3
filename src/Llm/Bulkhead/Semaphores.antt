-- ===== src/Llm/Bulkhead/Semaphores.antt =====
-- What each method of dawn_kestrel/llm/bulkhead.py does to the semaphores and to the limits.
use dawn_kestrel.Prelude.{
  ℕ, ◌+◌, ◌-◌, ◌<◌, String, Bool, true, false, ◌&&◌, some, lookup, ltb, if◌then◌else◌, string_eq,
  ◌≡◌, lookup-insert, contains, contains-add, contains-remove, text, arith, inl, inr, ◌==◌, ==_refl,
  Bool-cases,
}
use dawn_kestrel.Core.Result.{ok, err_code, is_ok}
use dawn_kestrel.Llm.Bulkhead.{Bulkhead, set_limit, get_limit, try_acquire, release, permits}

module _ (b : Bulkhead) (q r : String) where
  pub semaphore-try_acquire :
      lookup r (try_acquire b q).1.semaphores
      ≡ (if q == r then some (permits b q - 1) else lookup r b.semaphores)
  unfolding try_acquire
  semaphore-try_acquire = elim (Bool-cases (ltb 0 (permits b q))) [
    | inl free ↦ rw free (lookup-insert q r _ _)
    | inr full ↦
        let e : permits b q ≡ permits b q - 1 = ground arith in
        rw full (rw (lookup-insert q r _ _) (rw (← e)))
  ]

  pub is_ok-try_acquire : is_ok (try_acquire b q).0 ≡ ltb 0 (permits b q)
  unfolding try_acquire
  is_ok-try_acquire = ground arith

  pub semaphore-release : lookup r (release b q).1.semaphores ≡ (
      if contains q b.managed_semaphores && q == r
      then some (permits b q + 1)
      else lookup r b.semaphores)
  unfolding release
  semaphore-release = elim (Bool-cases (contains q b.managed_semaphores)) [
    | inl held ↦ rw held (lookup-insert q r _ _)
    | inr free ↦ rw free
  ]

  pub limit-calls :
      (get_limit (try_acquire b q).1 r ≡ get_limit b r)
      × (get_limit (release b q).1 r ≡ get_limit b r)
  unfolding try_acquire release get_limit
  limit-calls = ground arith

pub get_limit-set_limit :
    (b : Bulkhead) (q r : String) (m : ℕ)
    → get_limit (set_limit b q m) r ≡ (if q == r then m else get_limit b r)
unfolding get_limit set_limit
get_limit-set_limit b q r m = elim (Bool-cases (q == r)) [
  | inl same ↦ rw (lookup-insert q r m b.limits, same, get_limit)
  | inr other ↦ rw (lookup-insert q r m b.limits, other, get_limit)
]

pub permits-some :
    (b : Bulkhead) (r : String) (n : ℕ) → lookup r b.semaphores ≡ some n → permits b r ≡ n
unfolding permits
permits-some b r n h = rw (h, permits)

abbrev pub is_held : Bulkhead → String → Bool
is_held b r = contains r b.managed_semaphores

module _ (b : Bulkhead) (r : String) where
  pub acquired :
      0 < permits b r
      → ((try_acquire b r).0 ≡ ok r)
        × (permits (try_acquire b r).1 r ≡ permits b r - 1)
        × (is_held (try_acquire b r).1 r ≡ true)
  unfolding try_acquire
  acquired h =
      let e : ltb 0 (permits b r) ≡ true = ground arith in
      let p =
        permits-some (try_acquire b r).1 r (permits b r - 1)
          (rw (semaphore-try_acquire b r r, ==_refl r)) in
      (rw e, p, rw e (rw (contains-add r r b.managed_semaphores, ==_refl r)))

  pub released :
      is_held b r ≡ true
      → (permits (release b r).1 r ≡ permits b r + 1) × (is_held (release b r).1 r ≡ false)
  unfolding release
  released h = (
    permits-some (release b r).1 r (permits b r + 1) (rw (semaphore-release b r r, h, ==_refl r)),
    rw h (contains-remove r b.managed_semaphores),
  )

  pub refused :
      is_held b r ≡ false
      → release b r
        ≡ (err_code (text "Semaphore was not acquired via try_acquire") "BULKHEAD_ERROR", b)
  unfolding release
  refused h = rw h

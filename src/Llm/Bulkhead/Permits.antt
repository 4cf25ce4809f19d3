-- ===== src/Llm/Bulkhead/Permits.antt =====
-- dawn_kestrel/llm/bulkhead.py: how many calls of one resource can be between their `try_acquire` and
-- their `release` at the same time, over every order of the calls of all resources.
use dawn_kestrel.Prelude.{
  ℕ, suc, ◌+◌, ◌-◌, ◌≤◌, String, Bool, ◌&&◌, true, Option, none, some, List, [], ◌∷◌, lookup, ltb,
  if◌then◌else◌, string_eq, ◌≡◌, refl, contains, arith, inl, inr, ◌==◌, Bool-cases,
}
use dawn_kestrel.Core.Result.{is_ok}
use dawn_kestrel.Llm.Bulkhead.{
  Bulkhead, new_bulkhead, set_limit, get_limit, try_acquire, release, permits,
}
use dawn_kestrel.Llm.Bulkhead.Semaphores.{
  semaphore-try_acquire, is_ok-try_acquire, semaphore-release, limit-calls, get_limit-set_limit,
}

-- a task asks for a permit or gives it back, or a limit is set
pub data Event : Type 0 where
  enter : String → Event
  leave : String → Event
  limit : String → ℕ → Event

-- the bulkhead, and the resource of each task that runs
pub record System : Type 0 where
  pub bulkhead : Bulkhead
  pub running : List String

unfoldable pub count : String → List String → ℕ
count r [] = 0
count r (x ∷ xs) = let rest = count r xs in if x == r then suc rest else rest

unfoldable pub drop_one : String → List String → List String
drop_one r [] = []
drop_one r (x ∷ xs) = let rest = drop_one r xs in if x == r then xs else x ∷ rest

unfoldable pub step : System → Event → System
step s (enter r) =
    let (answer, b) = try_acquire s.bulkhead r in
    if is_ok answer
    then record { bulkhead = b; running = r ∷ s.running }
    else record { bulkhead = b; running = s.running }
step s (leave r) =
    if contains r s.running
    then record { bulkhead = (release s.bulkhead r).1; running = drop_one r s.running }
    else s
step s (limit r n) = record s { bulkhead = set_limit s.bulkhead r n }

unfoldable pub after_all : System → List Event → System
after_all s [] = s
after_all s (e ∷ es) = after_all (step s e) es

unfoldable pub initial : System
initial = record { bulkhead = new_bulkhead; running = [] }

-- no limit that is set for the resource is above `n`
abbrev pub LimitsLe : String → ℕ → List Event → Type 0
LimitsLe r n [] = Unit
LimitsLe r n (limit q m ∷ es) = (q ≡ r → m ≤ n) × LimitsLe r n es
LimitsLe r n (_ ∷ es) = LimitsLe r n es

contains-count : (r : String) (xs : List String) → contains r xs ≡ true → 1 ≤ count r xs
unfolding contains count
contains-count r [] h = cc
contains-count r (x ∷ xs) h = ground (arith, contains-count r xs)

count-drop_one :
    (r q : String) (xs : List String)
    → count r (drop_one q xs) ≡ (if q == r then count r xs - 1 else count r xs)
unfolding count drop_one
count-drop_one r q [] = ground arith
count-drop_one r q (x ∷ xs) = ground (
  arith,
  string_eq.same_iff x q,
  string_eq.same_iff x r,
  string_eq.same_iff q r,
  count-drop_one r q xs,
  contains-count r xs,
)

-- Until a resource has a semaphore nobody holds a permit; then the free permits and the tasks that
-- run are at most `n`.
abbrev Holds : ℕ → Option ℕ → ℕ → Type 0
Holds n none running = running ≡ 0
Holds n (some free) running = free + running ≤ n

abbrev Bounded : String → ℕ → System → Type 0
Bounded r n s =
    (get_limit s.bulkhead r ≤ n) × Holds n (lookup r s.bulkhead.semaphores) (count r s.running)

count-entered :
    (r q : String) (t : Bool) (xs : List String)
    → count r (if t then q ∷ xs else xs) ≡ (if t && q == r then suc (count r xs) else count r xs)
unfolding count
count-entered r q t xs = ground arith

module _ (r q : String) (n : ℕ) (s : System) (h : Bounded r n s) where
  permits-le : permits s.bulkhead r + count r s.running ≤ n
  unfolding permits
  permits-le = ground arith

  abbrev entered : List String
  entered = if is_ok (try_acquire s.bulkhead q).0 then q ∷ s.running else s.running

  enter_step :
      step s (enter q) ≡ record { bulkhead = (try_acquire s.bulkhead q).1; running = entered }
  unfolding step
  enter_step = ground arith

  entered_count : count r entered ≡ (
      if ltb 0 (permits s.bulkhead q) && q == r then suc (count r s.running) else count r s.running)
  entered_count = rw (is_ok-try_acquire s.bulkhead q q) (count-entered r q _ s.running)

  enter-Holds :
      Holds n
        (if q == r then some (permits s.bulkhead q - 1) else lookup r s.bulkhead.semaphores)
        (count r entered)
  enter-Holds = elim (Bool-cases (q == r)) [
    | inl same ↦
        let e : q ≡ r = (string_eq.same_iff q r).0 same in
        let p = permits-le in rw (entered_count, same) (rw e (ground arith))
    | inr other ↦ rw (entered_count, other) (ground arith)
  ]

  left-Holds :
      contains q s.running ≡ true
      → Holds n
          (if contains q s.bulkhead.managed_semaphores && q == r
            then some (permits s.bulkhead q + 1)
            else lookup r s.bulkhead.semaphores)
          (count r (drop_one q s.running))
  left-Holds in_it = elim (Bool-cases (q == r)) [
    | inl same ↦
        let e : q ≡ r = (string_eq.same_iff q r).0 same in
        let p = permits-le in
        let c : 1 ≤ count r s.running = rw e at (contains-count q s.running in_it) in
        rw (count-drop_one, same) (rw e (ground arith))
    | inr other ↦ rw (count-drop_one, other) (ground arith)
  ]

enter-Bounded : (r q : String) (n : ℕ) (s : System) → Bounded r n s → Bounded r n (step s (enter q))
enter-Bounded r q n s h = rw (enter_step r q n s h) (
    rw ((limit-calls s.bulkhead q r).0, semaphore-try_acquire s.bulkhead q r)
      (h.0, enter-Holds r q n s h))

leave-Bounded : (r q : String) (n : ℕ) (s : System) → Bounded r n s → Bounded r n (step s (leave q))
unfolding step
leave-Bounded r q n s h = elim (Bool-cases (contains q s.running)) [
  | inl in_it ↦ rw in_it (
      rw ((limit-calls s.bulkhead q r).1, semaphore-release s.bulkhead q r)
        (h.0, left-Holds r q n s h in_it))
  | inr out ↦ rw out h
]

limit-Bounded :
    (r q : String) (n m : ℕ) (s : System)
    → Bounded r n s
    → (q ≡ r → m ≤ n)
    → Bounded r n (step s (limit q m))
unfolding step set_limit
limit-Bounded r q n m s h le = elim (Bool-cases (q == r)) [
  | inl same ↦
      (rw (get_limit-set_limit s.bulkhead q r m, same) (le ((string_eq.same_iff q r).0 same)), h.1)
  | inr other ↦ (rw (get_limit-set_limit s.bulkhead q r m, other) h.0, h.1)
]

after_all-Bounded :
    (r : String) (n : ℕ) (es : List Event) (s : System)
    → LimitsLe r n es
    → Bounded r n s
    → Bounded r n (after_all s es)
unfolding after_all
after_all-Bounded r n [] s l h = h
after_all-Bounded r n (enter q ∷ es) s l h =
    after_all-Bounded r n es (step s (enter q)) l (enter-Bounded r q n s h)
after_all-Bounded r n (leave q ∷ es) s l h =
    after_all-Bounded r n es (step s (leave q)) l (leave-Bounded r q n s h)
after_all-Bounded r n (limit q m ∷ es) s l h =
    after_all-Bounded r n es (step s (limit q m)) l.1 (limit-Bounded r q n m s h l.0)

-- In every order of requests, releases and changes of limits that starts from a new bulkhead, where
-- no limit set for the resource is above `n` and `n` is at least 1, at most `n` tasks hold a permit
-- of the resource at the same time.
pub after_all-count-le :
    (r : String) (n : ℕ) (es : List Event)
    → 1 ≤ n
    → LimitsLe r n es
    → count r (after_all initial es).running ≤ n
unfolding initial new_bulkhead get_limit count lookup
after_all-count-le r n es pos l =
    let b = after_all-Bounded r n es initial l (pos, refl) in
    let p = permits-le r r n (after_all initial es) b in omega arith

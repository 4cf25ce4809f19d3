-- ===== src/Reliability/Pool/Sizes.antt =====
-- The workers of a pool of dawn_kestrel/reliability/queue_worker.py.
use dawn_kestrel.Prelude.{
  ℕ, zero, suc, ◌+◌, ◌-◌, ◌≤◌, ◌<◌, Bool, true, false, List, [], ◌∷◌, ◌++◌, length, take,
  length-append, if◌then◌else◌, ltb, ◌≡◌, refl, sym, ap, ◌∙◌, arith, inl, inr, Bool-cases,
}
use dawn_kestrel.Reliability.Tasks.{TaskQueue}
use dawn_kestrel.Reliability.Workers.{Worker, Shared, new_worker, start_worker}
use dawn_kestrel.Reliability.Pool.{
  WorkerPool, hire, running_count, new_pool, start, stop, resized, resize,
}

running-append :
    (xs ys : List Worker) → running_count (xs ++ ys) ≡ running_count xs + running_count ys
unfolding running_count
running-append [] ys = omega arith
running-append (x ∷ xs) ys = ground (arith, running-append xs ys)

running-le : (xs : List Worker) → running_count xs ≤ length xs
unfolding running_count
running-le [] = omega arith
running-le (x ∷ xs) = ground (arith, running-le xs)

running-take :
    (n : ℕ) (xs : List Worker)
    → running_count xs ≡ length xs
    → running_count (take n xs) ≡ length (take n xs)
unfolding running_count
running-take zero xs h = refl
running-take (suc n) [] h = refl
running-take (suc n) (x ∷ xs) h = ground (arith, running-take n xs, running-le xs)

length-take : {A : Type 0} (n : ℕ) (xs : List A) → n ≤ length xs → length (take n xs) ≡ n
length-take zero xs h = refl
length-take (suc n) [] h = omega arith
length-take (suc n) (x ∷ xs) h = ap (λ k. suc k) (length-take n xs (omega arith))

length-hire : (i n : ℕ) → (length (hire i n) ≡ n) × (running_count (hire i n) ≡ n)
unfolding hire running_count start_worker new_worker
length-hire i zero = (refl, refl)
length-hire i (suc n) = let (l, r) = length-hire (suc i) n in (omega arith, omega arith)

-- a call that changes the pool
pub data Call : Type 0 where
  start_it stop_it : Call
  resize_it : ℕ → Call

module _ {P : Type 0} where
  unfoldable pub call : WorkerPool P → Call → WorkerPool P
  call p start_it = (start p).1
  call p stop_it = (stop p).1
  call p (resize_it n) = (resize p n).1

  unfoldable pub call_all : WorkerPool P → List Call → WorkerPool P
  call_all p [] = p
  call_all p (c ∷ cs) = call_all (call p c) cs

  -- every worker runs, and a running pool has as many as it is to have
  abbrev Sized : WorkerPool P → Type 0
  Sized p =
      (running_count p.workers ≡ length p.workers)
      × (p.is_running ≡ true → length p.workers ≡ p.num_workers)

  abbrev flagged : WorkerPool P → Bool → WorkerPool P
  flagged p b = record p { is_running = b }

  start-Sized : (p : WorkerPool P) (b : Bool) → Sized (flagged p b) → Sized (start (flagged p b)).1
  unfolding start
  start-Sized p true h = h
  start-Sized p false h = let (l, r) = length-hire 0 p.num_workers in (r ∙ sym l, λ _. l)

  stop-Sized : (p : WorkerPool P) (b : Bool) → Sized (flagged p b) → Sized (stop (flagged p b)).1
  unfolding stop running_count
  stop-Sized p true h = (refl, λ e. cc)
  stop-Sized p false h = h

  resized-Sized :
      (n : ℕ) (ws : List Worker) (s : Shared P)
      → running_count ws ≡ length ws
      → (running_count (resized n ws s).0 ≡ length (resized n ws s).0)
        × (length (resized n ws s).0 ≡ n)
  unfolding resized
  resized-Sized n ws s h =
      let (l, r) = length-hire (length ws) (n - length ws) in
      elim (Bool-cases (ltb (length ws) n)) [
        | inl more ↦
            let lt : length ws < n = ground arith in
            let a = length-append ws (hire (length ws) (n - length ws)) in
            let b = running-append ws (hire (length ws) (n - length ws)) in
            rw more (omega arith, omega arith)
        | inr not_more ↦ elim (Bool-cases (ltb n (length ws))) [
          | inl fewer ↦
              let le : n ≤ length ws = ground arith in
              rw (not_more, fewer) (running-take n ws h, length-take n ws le)
          | inr same ↦ let e : length ws ≡ n = ground arith in rw (not_more, same) (h, e)
        ]
      ]

  resize-Sized : (p : WorkerPool P) (n : ℕ) → Sized p → Sized (resize p n).1
  unfolding resize
  resize-Sized p n h = elim (Bool-cases (ltb n 1)) [
    | inl refused ↦ rw refused h
    | inr taken ↦ let (r, l) = resized-Sized n p.workers p.shared h.0 in rw taken (r, λ _. l)
  ]

  call-Sized : (p : WorkerPool P) (c : Call) → Sized p → Sized (call p c)
  unfolding call
  call-Sized p start_it h = start-Sized p p.is_running h
  call-Sized p stop_it h = stop-Sized p p.is_running h
  call-Sized p (resize_it n) h = resize-Sized p n h

  call_all-Sized : (p : WorkerPool P) (cs : List Call) → Sized p → Sized (call_all p cs)
  unfolding call_all
  call_all-Sized p [] h = h
  call_all-Sized p (c ∷ cs) h = call_all-Sized (call p c) cs (call-Sized p c h)

  -- Whatever `start`, `stop` and `resize` are called of a new pool, all the workers that it lists run,
  -- and while the pool is running it lists as many as it is to have.
  pub call_all-new_pool :
      (q : TaskQueue P) (n : ℕ) (cs : List Call)
      → (running_count (call_all (new_pool q n) cs).workers
          ≡ length (call_all (new_pool q n) cs).workers)
        × ((if (call_all (new_pool q n) cs).is_running
              then (call_all (new_pool q n) cs).num_workers
              else length (call_all (new_pool q n) cs).workers)
            ≡ length (call_all (new_pool q n) cs).workers)
  unfolding new_pool running_count
  call_all-new_pool q n cs =
      let p = call_all (new_pool q n) cs in
      let (r, l) = call_all-Sized (new_pool q n) cs (refl, λ e. cc) in
      (r, elim (Bool-cases p.is_running) [ inl on ↦ rw on (sym (l on)) | inr off ↦ rw off ])

  -- A size below 1 is refused and changes nothing; any other gives the pool that many workers, and
  -- they all run if all did before.
  pub resize-length :
      (p : WorkerPool P) (n : ℕ)
      → running_count p.workers ≡ length p.workers
      → (if ltb n 1 then length p.workers else n) ≡ length (resize p n).1.workers
  unfolding resize
  resize-length p n h = elim (Bool-cases (ltb n 1)) [
    | inl refused ↦ rw refused
    | inr taken ↦ rw taken (sym (resized-Sized n p.workers p.shared h).1)
  ]

  -- A new pool that is resized to `n` workers, `n` at least 1, before it is started runs them but
  -- counts as stopped: `stop` stops none of them.
  pub stop-resize :
      (q : TaskQueue P) (m n : ℕ)
      → 1 ≤ n
      → ((stop (resize (new_pool q m) n).1).1.is_running ≡ false)
        × (running_count (stop (resize (new_pool q m) n).1).1.workers ≡ n)
  unfolding stop resize new_pool running_count
  stop-resize q m n h =
      let more : ltb n 1 ≡ false = ground arith in
      let (r, l) = resized-Sized n [] (new_pool q m).shared refl in rw more (refl, r ∙ l)

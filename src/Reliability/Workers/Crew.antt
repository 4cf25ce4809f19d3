-- ===== src/Reliability/Workers/Crew.antt =====
-- dawn_kestrel/reliability/queue_worker.py: what becomes of the tasks that workers share, over every
-- interleaving of their steps with enqueues, starts and stops.
use dawn_kestrel.Prelude.{
  ℕ, ◌+◌, ◌-◌, true, false, List, [], ◌∷◌, ◌++◌, length, length-append, ◌≡◌, refl, sym, arith,
}
use dawn_kestrel.Reliability.Tasks.{Ref, TaskQueue, enqueue, is_full, new_queue, Task}
use dawn_kestrel.Reliability.Workers.{Worker, Shared, new_worker, start_worker, stop_worker}
use dawn_kestrel.Reliability.Workers.Accounts.{
  Act, perform, in_processor, in_hand, done, sum, sum-append, perform-Balanced, stop_at,
}
use dawn_kestrel.Reliability.Pool.{is_complete}

-- the shared state, the workers, and two counts kept for the statement only: of the tasks put in the
-- queue, and of those that a worker had when it was stopped
pub record Crew (P : Type 0) : Type 0 where
  pub shared : Shared P
  pub workers : List Worker
  pub enqueued : ℕ
  pub lost : ℕ

abbrev pub has : Worker → ℕ
has w = in_processor w + in_hand w

module _ {P R : Type 0} where
  abbrev pub performed : Crew P → List Worker → Worker → List Worker → Act R → Crew P
  performed c xs w ys a = record c {
    shared = (perform a w c.shared).1;
    workers = xs ++ (perform a w c.shared).0 ∷ ys;
  }

module _ {P : Type 0} where
  abbrev pub queued : Crew P → Ref → Crew P
  queued c r = record c {
    shared = record c.shared { tasks = (enqueue c.shared.tasks r).1 };
    enqueued = c.enqueued + 1;
  }

  abbrev pub joined : Crew P → ℕ → Crew P
  joined c i = record c { workers = c.workers ++ (start_worker (new_worker i)).1 ∷ [] }

  abbrev pub stopped : Crew P → List Worker → Worker → List Worker → Crew P
  stopped c xs w ys = record c {
    shared = (stop_worker w c.shared).1;
    workers = xs ++ (stop_worker w c.shared).0 ∷ ys;
    lost = c.lost + (has w - has (stop_worker w c.shared).0);
  }

-- one step of the event loop
pub data Step (P R : Type 0) : Crew P → Crew P → Type 0 where
  enqueues : (c : Crew P) (r : Ref) → is_full c.shared.tasks ≡ false → Step P R c (queued c r)
  joins : (c : Crew P) (i : ℕ) → Step P R c (joined c i)
  works :
      (c : Crew P) (xs : List Worker) (w : Worker) (ys : List Worker) (a : Act R)
      → c.workers ≡ xs ++ w ∷ ys
      → Step P R c (performed c xs w ys a)
  stops :
      (c : Crew P) (xs : List Worker) (w : Worker) (ys : List Worker)
      → c.workers ≡ xs ++ w ∷ ys
      → Step P R c (stopped c xs w ys)

pub data Reach (P R : Type 0) (c : Crew P) : Crew P → Type 0 where
  here : Reach P R c c
  next : {d e : Crew P} → Reach P R c d → Step P R d e → Reach P R c e

module _ {P : Type 0} where
  abbrev pub fresh_crew : TaskQueue P → Crew P
  fresh_crew q = record {
    shared = record { tasks = q; in_progress = 0 };
    workers = [];
    enqueued = 0;
    lost = 0;
  }

  abbrev Counted : Crew P → Type 0
  Counted c =
      (c.shared.in_progress ≡ sum in_processor c.workers)
      × (length c.shared.tasks.queue
            + sum in_processor c.workers
            + sum in_hand c.workers
            + sum done c.workers
            + c.lost
          ≡ c.enqueued)

  queue-enqueue :
      (q : TaskQueue P) (r : Ref)
      → is_full q ≡ false
      → length (enqueue q r).1.queue ≡ length q.queue + 1
  unfolding enqueue
  queue-enqueue q r room = rw room (length-append q.queue (r ∷ []))

  stops-Counted :
      (c : Crew P) (xs : List Worker) (w : Worker) (ys : List Worker)
      → c.workers ≡ xs ++ w ∷ ys
      → Counted c
      → Counted (stopped c xs w ys)
  stops-Counted c xs w ys e h =
      let h0 = rw e at h.0 in
      let h1 = rw e at h.1 in
      let w' = (stop_worker w c.shared).0 in
      let i = sum-append in_processor xs (w ∷ ys) in
      let i' = sum-append in_processor xs (w' ∷ ys) in
      let j = sum-append in_hand xs (w ∷ ys) in
      let j' = sum-append in_hand xs (w' ∷ ys) in
      let k = sum-append done xs (w ∷ ys) in
      let k' = sum-append done xs (w' ∷ ys) in
      let (p, q, d, le) = stop_at w w.phase c.shared (omega arith) in
      (omega arith, rw q (omega arith))

  joins-Counted : (c : Crew P) (i : ℕ) → Counted c → Counted (joined c i)
  unfolding start_worker new_worker in_processor in_hand done
  joins-Counted c i h =
      let w = (start_worker (new_worker i)).1 in
      let a = sum-append in_processor c.workers (w ∷ []) in
      let b = sum-append in_hand c.workers (w ∷ []) in
      let d = sum-append done c.workers (w ∷ []) in (omega arith, omega arith)

module _ {P R : Type 0} where
  works-Counted :
      (c : Crew P) (xs : List Worker) (w : Worker) (ys : List Worker) (a : Act R)
      → c.workers ≡ xs ++ w ∷ ys
      → Counted c
      → Counted (performed c xs w ys a)
  works-Counted c xs w ys a e h =
      let (p, q) = perform-Balanced a w c.shared in
      let w' = (perform a w c.shared).0 in
      let h0 = rw e at h.0 in
      let h1 = rw e at h.1 in
      let i = sum-append in_processor xs (w ∷ ys) in
      let i' = sum-append in_processor xs (w' ∷ ys) in
      let j = sum-append in_hand xs (w ∷ ys) in
      let j' = sum-append in_hand xs (w' ∷ ys) in
      let k = sum-append done xs (w ∷ ys) in
      let k' = sum-append done xs (w' ∷ ys) in
      let p' = p (omega arith) in (omega arith, omega arith)

  Step-Counted : {c d : Crew P} → Step P R c d → Counted c → Counted d
  Step-Counted (enqueues c r room) h =
      let q = queue-enqueue c.shared.tasks r room in (h.0, omega arith)
  Step-Counted (joins c i) h = joins-Counted c i h
  Step-Counted (works c xs w ys a e) h = works-Counted c xs w ys a e h
  Step-Counted (stops c xs w ys e) h = stops-Counted c xs w ys e h

  Reach-Counted : {c d : Crew P} → Reach P R c d → Counted c → Counted d
  Reach-Counted here h = h
  Reach-Counted (next r s) h = Step-Counted s (Reach-Counted r h)

  -- In every order of enqueues, starts, stops and steps of the workers from a pool that has none, the
  -- count of what is in progress is the number of tasks in the processor, and every task that was put
  -- in the queue waits in it, is with one worker, is counted as processed or as an error, or was with a
  -- worker that was stopped.
  pub Reach-fresh_crew :
      {c : Crew P} (store : Ref → Task P) (maxsize : ℕ)
      → Reach P R (fresh_crew (new_queue store maxsize)) c
      → (c.shared.in_progress ≡ sum in_processor c.workers)
        × (c.enqueued
            ≡ length c.shared.tasks.queue
              + sum in_processor c.workers
              + sum in_hand c.workers
              + sum done c.workers
              + c.lost)
  unfolding new_queue
  Reach-fresh_crew store maxsize r = let h = Reach-Counted r (refl, omega arith) in (h.0, sym h.1)

  -- When the test of `wait_for_completion` succeeds, no task waits or is in the processor: each was
  -- finished, or is in the hand of a worker between its dequeue and its processor, or was lost by a stop.
  pub is_complete-Reach :
      {c : Crew P} (store : Ref → Task P) (maxsize : ℕ)
      → Reach P R (fresh_crew (new_queue store maxsize)) c
      → is_complete c.shared ≡ true
      → c.enqueued ≡ sum done c.workers + sum in_hand c.workers + c.lost
  unfolding is_complete
  is_complete-Reach {c} store maxsize r h =
      let (n, t) = Reach-fresh_crew store maxsize r in
      let empty : (length c.shared.tasks.queue ≡ 0) × (c.shared.in_progress ≡ 0) = ground arith in
      omega (arith, n, t, empty.0, empty.1)

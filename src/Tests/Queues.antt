-- ===== src/Tests/Queues.antt =====
-- dawn_kestrel/reliability/queue_worker.py
use dawn_kestrel.Prelude.{
  ℕ, ◌+◌, ◌≤◌, ◌≡◌, ◌⊎◌, refl, String, some, List, [], ◌∷◌, ◌++◌, length, if◌then◌else◌, text,
  raises, ◌==◌, nat_eq, string_eq,
}
use dawn_kestrel.Core.Result.{ok}
use dawn_kestrel.Reliability.Tasks.{
  failed, Task, Ref, TaskQueue, new_queue, enqueue, dequeue, peek, drain, is_full,
}
use dawn_kestrel.Reliability.Tasks.Order.{Op, put, get, look, apply_all, fresh, apply_all-fresh}
use dawn_kestrel.Reliability.Workers.{new_worker, start_worker, fetch, begin, finish}
use dawn_kestrel.Reliability.Workers.Accounts.{
  take_next, call_processor, processor_ends, perform, in_processor, in_hand, done, sum,
}
use dawn_kestrel.Reliability.Workers.Crew.{
  Crew, fresh_crew, queued, enqueues, joins, works, Reach, here, next, performed, joined,
  Reach-fresh_crew, is_complete-Reach,
}
use dawn_kestrel.Reliability.Pool.{is_complete}

-- the tasks 3 and 4 have the same id
abbrev id_of : Ref → String
id_of r = if r == 5 then "export" else "mail"

abbrev store : Ref → Task ℕ
store r = record {
  id = id_of r;
  type = "job";
  payload = r;
  status = failed;
  priority = 0;
  created_at = 0;
}

abbrev queue : TaskQueue ℕ
queue = (enqueue (enqueue (new_queue store 0) 3).1 5).1

peeks_first : (peek queue).0 ≡ ok (some 3)
unfolding peek drain enqueue new_queue is_full
peeks_first = refl

abbrev ops : List Op
ops = put 3 ∷ put 5 ∷ look ∷ put 4 ∷ get ∷ put 4 ∷ []

apply_all-fresh_example :
    ((apply_all (fresh store 2) ops).enqueued
      ≡ (apply_all (fresh store 2) ops).dequeued ++ (apply_all (fresh store 2) ops).state.queue)
    × ((◌≡◌ {A = ℕ} 2 0) ⊎ (length (apply_all (fresh store 2) ops).state.queue ≤ 2))
apply_all-fresh_example = apply_all-fresh store 2 ops

abbrev crew : Crew ℕ
crew = fresh_crew (new_queue store 0)

abbrev manned : Crew ℕ
manned = joined (queued crew 3) 0

-- the worker has taken the task out of the queue
abbrev taken : Crew ℕ
taken = performed {R = ℕ} manned [] (start_worker (new_worker 0)).1 [] take_next

to_taken : Reach ℕ ℕ crew taken
unfolding new_queue is_full
to_taken =
    next (next (next here (enqueues crew 3 refl)) (joins (queued crew 3) 0))
      (works manned [] (start_worker (new_worker 0)).1 [] take_next refl)

abbrev ended : Crew ℕ
ended =
    performed {R = ℕ}
      (performed {R = ℕ} taken [] (fetch (start_worker (new_worker 0)).1 manned.shared).0 []
        call_processor)
      [] (begin (fetch (start_worker (new_worker 0)).1 manned.shared).0 taken.shared).0 []
      (processor_ends (raises (text "crash")))

to_ended : Reach ℕ ℕ crew ended
unfolding perform
to_ended =
    next
      (next to_taken (
        works taken [] (fetch (start_worker (new_worker 0)).1 manned.shared).0 [] call_processor
          refl))
      (works
        (performed {R = ℕ} taken [] (fetch (start_worker (new_worker 0)).1 manned.shared).0 []
          call_processor)
        [] (begin (fetch (start_worker (new_worker 0)).1 manned.shared).0 taken.shared).0 []
        (processor_ends (raises (text "crash"))) refl)

Reach-fresh_crew_example :
    (ended.shared.in_progress ≡ sum in_processor ended.workers)
    × (ended.enqueued
        ≡ length ended.shared.tasks.queue
          + sum in_processor ended.workers
          + sum in_hand ended.workers
          + sum done ended.workers
          + ended.lost)
Reach-fresh_crew_example = Reach-fresh_crew {P = ℕ} {R = ℕ} store 0 to_ended

one_error : sum done ended.workers ≡ 1
unfolding done perform fetch begin finish start_worker new_worker enqueue new_queue is_full dequeue
one_error = refl

-- the queue is empty and nothing is counted as in progress, but the task is not done
is_complete-Reach_example :
    taken.enqueued ≡ sum done taken.workers + sum in_hand taken.workers + taken.lost
unfolding is_complete perform fetch start_worker new_worker enqueue new_queue is_full dequeue
is_complete-Reach_example = is_complete-Reach {P = ℕ} {R = ℕ} store 0 to_taken refl

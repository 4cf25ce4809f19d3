-- ===== src/Reliability/Workers.antt =====
-- dawn_kestrel/reliability/queue_worker.py: `AsyncWorker`. The loop of a worker is cut
-- where another task of the event loop can run: after the dequeue, and while the processor is awaited.
-- The processor is no code of this file: what it gives back is an argument.
pub mod Accounts
pub mod Crew
use dawn_kestrel.Prelude.{
  ℕ, zero, suc, ◌+◌, ◌-◌, Bool, true, false, not, ◌&&◌, Option, none, some, List, [], ◌∷◌, ◌++◌,
  length, take, leb, ltb, if◌then◌else◌, text, Outcome, returns, raises,
}
use dawn_kestrel.Core.Result.{Result, ok, err_code, is_ok}
use dawn_kestrel.Reliability.Tasks.{
  TaskStatus, running, completed, failed, Ref, TaskQueue, dequeue, update_status, size,
}

-- what a worker is at: waiting for a task, with one from the queue, or in the processor with it
pub data Phase : Type 0 where
  idle : Phase
  fetched busy : Ref → Phase

-- `AsyncWorker`; a pool numbers its workers. `is_running` is the flag `_running`.
pub record Worker : Type 0 where
  pub worker_id : ℕ
  pub is_running : Bool
  pub phase : Phase
  pub processed_count : ℕ
  pub error_count : ℕ

-- what the workers of a pool share: the queue and the count of tasks in the processor
pub record Shared (P : Type 0) : Type 0 where
  pub tasks : TaskQueue P
  pub in_progress : ℕ

unfoldable pub new_worker : ℕ → Worker
new_worker i = record {
  worker_id = i;
  is_running = false;
  phase = idle;
  processed_count = 0;
  error_count = 0;
}

unfoldable pub start_worker : Worker → Result (Unit {0}) × Worker
start_worker w =
    if w.is_running
    then (err_code (text "Worker already running") "ALREADY_RUNNING", w)
    else (ok tt, record w { is_running = true; phase = idle })

succeeded : {R : Type 0} → Outcome (Result R) → Bool
succeeded (returns r) = is_ok r
succeeded (raises e) = false

-- the `finally` of the processor when it is cancelled
unfoldable pub cancelled : Phase → ℕ → ℕ
cancelled (busy r) n = n - 1
cancelled _ n = n

module _ {P : Type 0} where
  -- the status of the task that a reference stands for is set under its id
  unfoldable pub mark : TaskQueue P → Ref → TaskStatus → TaskQueue P
  mark q r status = (update_status q (q.store r).id status).1

  -- the next task of a running worker that waits
  fetch_from : Result (Option Ref) × TaskQueue P → Worker → ℕ → Worker × Shared P
  fetch_from (ok (some r), q) w n =
      (record w { phase = fetched r }, record { tasks = q; in_progress = n })
  fetch_from (_, q) w n = (w, record { tasks = q; in_progress = n })

  unfoldable pub fetch : Worker → Shared P → Worker × Shared P
  unfolding fetch_from
  fetch w s = elim w.phase [
    | idle ↦ if w.is_running then fetch_from (dequeue s.tasks) w s.in_progress else (w, s)
    | _ ↦ (w, s)
  ]

  -- the status `running`, and the call of the processor that counts what is in progress
  unfoldable pub begin : Worker → Shared P → Worker × Shared P
  unfolding mark
  begin w s = elim w.phase [
    | fetched r ↦ (
      record w { phase = busy r },
      record { tasks = mark s.tasks r running; in_progress = s.in_progress + 1 },
    )
    | _ ↦ (w, s)
  ]

  -- what the processor ends with
  unfoldable pub finish : {R : Type 0} → Outcome (Result R) → Worker → Shared P → Worker × Shared P
  unfolding mark succeeded
  finish o w s = elim w.phase [
    | busy r ↦
        if succeeded o
        then (
          record w { phase = idle; processed_count = w.processed_count + 1 },
          record { tasks = mark s.tasks r completed; in_progress = s.in_progress - 1 },
        )
        else (
          record w { phase = idle; error_count = w.error_count + 1 },
          record { tasks = mark s.tasks r failed; in_progress = s.in_progress - 1 },
        )
    | _ ↦ (w, s)
  ]

  unfoldable pub stop_worker : Worker → Shared P → Worker × Shared P
  unfolding cancelled
  stop_worker w s =
      if w.is_running
      then (
        record w { is_running = false; phase = idle },
        record s { in_progress = cancelled w.phase s.in_progress },
      )
      else (w, s)

-- ===== src/Reliability/Tasks.antt =====
-- dawn_kestrel/reliability/queue_worker.py: the tasks and `InMemoryTaskQueue`. A task is an object that
-- the queue, the table of tasks and the workers share, so it stands in a store under its reference.
pub mod Order
pub mod Status
use dawn_kestrel.Prelude.{
  ℕ, String, Bool, true, false, Option, none, some, List, [], ◌∷◌, ◌++◌, Dict, lookup, insert,
  length, leb, ltb, ◌&&◌, Message, text, ◌&◌, if◌then◌else◌, string_eq, nat_eq, ◌==◌,
}
use dawn_kestrel.Core.Result.{Result, ok, err, err_code}

pub data TaskStatus : Type 0 where
  pending running completed failed : TaskStatus

-- `P` is the type of the payload
pub record Task (P : Type 0) : Type 0 where
  pub id : String
  pub type : String
  pub payload : P
  pub status : TaskStatus
  pub priority : ℕ
  pub created_at : ℕ

-- a reference to a task
abbrev pub Ref : Type 0
Ref = ℕ

-- `queue` is the `asyncio.Queue`, its next element first; `maxsize` 0 is no bound.
pub record TaskQueue (P : Type 0) : Type 0 where
  pub store : Ref → Task P
  pub queue : List Ref
  pub tasks : Dict String Ref
  pub maxsize : ℕ

-- the loops of `peek`: one queue is emptied into another, from its front to its end
unfoldable pub drain : List Ref → List Ref → List Ref
drain [] to = to
drain (r ∷ rs) to = drain rs (to ++ r ∷ [])

module _ {P : Type 0} where
  unfoldable pub new_queue : (Ref → Task P) → ℕ → TaskQueue P
  new_queue store maxsize = record { store = store; queue = []; tasks = []; maxsize = maxsize }

  -- `task.status = status`
  unfoldable pub set_status : (Ref → Task P) → Ref → TaskStatus → Ref → Task P
  set_status store r status s = if r == s then record (store s) { status = status } else store s

  -- `asyncio.Queue.full`
  unfoldable pub is_full : TaskQueue P → Bool
  is_full q = ltb 0 q.maxsize && leb q.maxsize (length q.queue)

  -- Enqueueing, up to its `put`: `none` when that waits, with the task registered.
  unfoldable pub enqueue : TaskQueue P → Ref → Option (Result Ref) × TaskQueue P
  unfolding set_status is_full
  enqueue q r =
      let registered = record q {
        store = set_status q.store r pending;
        tasks = insert (q.store r).id r q.tasks;
      } in
      if is_full q
      then (none, registered)
      else (some (ok r), record registered { queue = q.queue ++ r ∷ [] })

  -- A wait with a timeout ends with the task that is there, or with none.
  unfoldable pub dequeue : TaskQueue P → Result (Option Ref) × TaskQueue P
  dequeue q = elim q.queue [ [] ↦ (ok none, q) | r ∷ rs ↦ (ok (some r), record q { queue = rs }) ]

  unfoldable pub peek : TaskQueue P → Result (Option Ref) × TaskQueue P
  unfolding drain
  peek q = elim q.queue [
    | [] ↦ (ok none, q)
    | r ∷ rs ↦
        let temp_queue = drain rs (r ∷ []) in
        (ok (some r), record q { queue = drain temp_queue [] })
  ]

  unfoldable pub size : TaskQueue P → Result ℕ
  size q = ok (length q.queue)

  unfoldable pub get_task : TaskQueue P → String → Result (Option Ref)
  get_task q task_id = ok (lookup task_id q.tasks)

  unfoldable pub update_status : TaskQueue P → String → TaskStatus → Result Ref × TaskQueue P
  unfolding set_status
  update_status q task_id status = elim (lookup task_id q.tasks) [
    | none ↦ (err_code (text "Task not found: " & text task_id) "TASK_NOT_FOUND", q)
    | some r ↦ (ok r, record q { store = set_status q.store r status })
  ]

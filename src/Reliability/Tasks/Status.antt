-- ===== src/Reliability/Tasks/Status.antt =====
-- The table of tasks of dawn_kestrel/reliability/queue_worker.py and the statuses of the shared objects.
use dawn_kestrel.Prelude.{
  String, false, some, List, [], ◌∷◌, lookup, lookup-insert, ◌≡◌, refl, ap, ◌∙◌, arith, inl, inr,
  if◌then◌else◌, Bool-cases, string_eq, nat_eq, ◌==◌, ==_refl,
}
use dawn_kestrel.Core.Result.{ok}
use dawn_kestrel.Reliability.Tasks.{
  TaskStatus, pending, Task, Ref, TaskQueue, is_full, enqueue, get_task, update_status, set_status,
}

module _ {P : Type 0} where
  table-enqueue :
      (q : TaskQueue P) (r : Ref) (id : String)
      → lookup id (enqueue q r).1.tasks
        ≡ (if (q.store r).id == id then some r else lookup id q.tasks)
  unfolding enqueue
  table-enqueue q r id = elim (Bool-cases (is_full q)) [
    | inl full ↦ rw full (lookup-insert (q.store r).id id r q.tasks)
    | inr room ↦ rw room (lookup-insert (q.store r).id id r q.tasks)
  ]

  store-enqueue :
      (q : TaskQueue P) (r s : Ref) → (enqueue q r).1.store s ≡ set_status q.store r pending s
  unfolding enqueue
  store-enqueue q r s = ground arith

  update_found :
      (q : TaskQueue P) (id : String) (status : TaskStatus) (r : Ref)
      → lookup id q.tasks ≡ some r
      → update_status q id status ≡ (ok r, record q { store = set_status q.store r status })
  unfolding update_status
  update_found q id status r h = rw (h, update_status)

  status-set :
      (store : Ref → Task P) (r s : Ref) (status : TaskStatus)
      → (set_status store r status s).status ≡ (if r == s then status else (store s).status)
  unfolding set_status
  status-set store r s status = ground arith

  id-set :
      (store : Ref → Task P) (r s : Ref) (status : TaskStatus)
      → (set_status store r status s).id ≡ (store s).id
  unfolding set_status
  id-set store r s status = ground arith

  status_chosen :
      (q : TaskQueue P) (r s : Ref) (status : TaskStatus)
      → (if r == s then status else ((enqueue q r).1.store s).status)
        ≡ (if r == s then status else (q.store s).status)
  status_chosen q r s status = elim (Bool-cases (r == s)) [
    | inl same ↦ rw same
    | inr other ↦ rw (other, store-enqueue q r s) (rw (status-set q.store r s pending, other))
  ]

  -- A task that has been enqueued, whether its `put` waits or not, is found under its id, and a change
  -- of the status under that id reaches this task and no other.
  pub update_status-enqueue :
      (q : TaskQueue P) (r s : Ref) (status : TaskStatus)
      → (get_task (enqueue q r).1 (q.store r).id ≡ ok (some r))
        × ((update_status (enqueue q r).1 (q.store r).id status).0 ≡ ok r)
        × (((update_status (enqueue q r).1 (q.store r).id status).1.store s).status
            ≡ (if r == s then status else (q.store s).status))
  unfolding get_task
  update_status-enqueue q r s status =
      let found : lookup (q.store r).id (enqueue q r).1.tasks ≡ some r =
        rw (table-enqueue q r (q.store r).id, ==_refl (q.store r).id) in
      (
        ap ok found,
        rw (update_found (enqueue q r).1 (q.store r).id status r found),
        rw (update_found (enqueue q r).1 (q.store r).id status r found)
            (status-set (enqueue q r).1.store r s status ∙ status_chosen q r s status),
      )

  -- changes of the status under one id
  unfoldable pub update_all : TaskQueue P → String → List TaskStatus → TaskQueue P
  update_all q id [] = q
  update_all q id (s ∷ ss) = update_all (update_status q id s).1 id ss

  update_all_other :
      (q : TaskQueue P) (id : String) (ss : List TaskStatus) (r s : Ref)
      → lookup id q.tasks ≡ some s
      → (s == r) ≡ false
      → ((update_all q id ss).store r).status ≡ (q.store r).status
  unfolding update_all
  update_all_other q id [] r s h e = refl
  update_all_other q id (x ∷ ss) r s h e =
      rw (update_found q id x s h, update_all)
        (update_all_other (record q { store = set_status q.store s x }) id ss r s h e
          ∙ rw (status-set q.store s r x, e))

  -- When a second task with the same id is enqueued after a first one, the first stays `pending`
  -- for good, whatever statuses are set under the id.
  pub update_all-enqueue :
      (q : TaskQueue P) (r s : Ref) (ss : List TaskStatus)
      → (s == r) ≡ false
      → (q.store s).id ≡ (q.store r).id
      → ((update_all (enqueue (enqueue q r).1 s).1 (q.store r).id ss).store r).status ≡ pending
  update_all-enqueue q r s ss e same =
      let q1 = (enqueue q r).1 in
      let id_kept : (q1.store s).id ≡ (q.store r).id =
        rw (store-enqueue q r s) (id-set q.store r s pending ∙ same) in
      let found : lookup (q.store r).id (enqueue q1 s).1.tasks ≡ some s =
        rw (table-enqueue q1 s (q.store r).id, id_kept, ==_refl (q.store r).id) in
      update_all_other (enqueue q1 s).1 (q.store r).id ss r s found e
      ∙ (rw (store-enqueue q1 s r) (
          status-set q1.store s r pending
          ∙ (rw e (rw (store-enqueue q r r) (status-set q.store r r pending ∙ rw (==_refl r))))))

-- ===== src/Reliability/Tasks/Order.antt =====
-- The order in which the queue of dawn_kestrel/reliability/queue_worker.py hands out its tasks.
use mathlib.Core.List.{append-nil, append_assoc}
use dawn_kestrel.Prelude.{
  ℕ, ◌≤◌, ◌<◌, true, false, none, some, List, [], ◌∷◌, ◌++◌, length, length-append, ◌≡◌, refl, sym,
  ap, ◌∙◌, arith, inl, inr, Bool-cases, ltb, ◌⊎◌,
}
use dawn_kestrel.Core.Result.{ok}
use dawn_kestrel.Reliability.Tasks.{
  Ref, TaskQueue, new_queue, is_full, enqueue, dequeue, drain, peek, Task,
}

drain-append : (rs to : List Ref) → drain rs to ≡ to ++ rs
unfolding drain
drain-append [] to = sym (append-nil to)
drain-append (r ∷ rs) to = drain-append rs (to ++ r ∷ []) ∙ append_assoc to (r ∷ []) rs

-- a call that changes the queue
pub data Op : Type 0 where
  put : Ref → Op
  get look : Op

-- what has been put in and what has been handed out, each in its order
pub record Log (P : Type 0) : Type 0 where
  pub state : TaskQueue P
  pub enqueued : List Ref
  pub dequeued : List Ref

module _ {P : Type 0} where
  -- the queue with other elements
  abbrev holding : TaskQueue P → List Ref → TaskQueue P
  holding q rs = record q { queue = rs }

  peek-holding :
      (q : TaskQueue P) (rs : List Ref)
      → ((peek (holding q rs)).0 ≡ (dequeue (holding q rs)).0)
        × ((peek (holding q rs)).1 ≡ holding q rs)
  unfolding peek dequeue
  peek-holding q [] = (refl, refl)
  peek-holding q (r ∷ rs) =
      let back : drain (drain rs (r ∷ [])) [] ≡ r ∷ rs =
        drain-append (drain rs (r ∷ [])) [] ∙ drain-append rs (r ∷ []) in
      (refl, ap (holding q) back)

  -- `peek` answers with the task that `dequeue` would, and leaves the queue as it was.
  pub peek-dequeue : (q : TaskQueue P) → ((peek q).0 ≡ (dequeue q).0) × ((peek q).1 ≡ q)
  peek-dequeue q = peek-holding q q.queue

  -- a put that waits is tried again: its task is not in the queue yet
  unfoldable pub apply : Log P → Op → Log P
  apply l (put r) =
      let (answer, q) = enqueue l.state r in
      elim answer [
        | none ↦ record l { state = q }
        | some _ ↦ record l { state = q; enqueued = l.enqueued ++ r ∷ [] }
      ]
  apply l get =
      let (answer, q) = dequeue l.state in
      elim answer [
        | ok (some r) ↦ record l { state = q; dequeued = l.dequeued ++ r ∷ [] }
        | _ ↦ record l { state = q }
      ]
  apply l look = record l { state = (peek l.state).1 }

  unfoldable pub apply_all : Log P → List Op → Log P
  apply_all l [] = l
  apply_all l (o ∷ os) = apply_all (apply l o) os

  unfoldable pub fresh : (Ref → Task P) → ℕ → Log P
  fresh store maxsize = record { state = new_queue store maxsize; enqueued = []; dequeued = [] }

  abbrev InOrder : Log P → Type 0
  InOrder l = l.enqueued ≡ l.dequeued ++ l.state.queue

  abbrev Fits : ℕ → Log P → Type 0
  Fits n l = (l.state.maxsize ≡ n) × (0 < n → length l.state.queue ≤ n)

  order_get :
      (l : Log P) (rs : List Ref)
      → l.enqueued ≡ l.dequeued ++ rs
      → InOrder (apply (record l { state = holding l.state rs }) get)
  unfolding apply dequeue
  order_get l [] h = h
  order_get l (r ∷ rs) h = h ∙ sym (append_assoc l.dequeued (r ∷ []) rs)

  put_full :
      (l : Log P) (r : Ref)
      → is_full l.state ≡ true
      → ((apply l (put r)).enqueued ≡ l.enqueued)
        × ((apply l (put r)).dequeued ≡ l.dequeued)
        × ((apply l (put r)).state.queue ≡ l.state.queue)
  unfolding apply enqueue
  put_full l r h = ground arith

  put_room :
      (l : Log P) (r : Ref)
      → is_full l.state ≡ false
      → ((apply l (put r)).enqueued ≡ l.enqueued ++ r ∷ [])
        × ((apply l (put r)).dequeued ≡ l.dequeued)
        × ((apply l (put r)).state.queue ≡ l.state.queue ++ r ∷ [])
  unfolding apply enqueue
  put_room l r h = ground arith

  put_maxsize : (l : Log P) (r : Ref) → (apply l (put r)).state.maxsize ≡ l.state.maxsize
  unfolding apply enqueue
  put_maxsize l r = ground arith

  apply_order : (l : Log P) (o : Op) → InOrder l → InOrder (apply l o)
  unfolding apply
  apply_order l (put r) h = elim (Bool-cases (is_full l.state)) [
    | inl full ↦ let (e, d, q) = put_full l r full in rw (e, d, q) h
    | inr room ↦
        let (e, d, q) = put_room l r room in
        e
        ∙ (ap (λ xs. xs ++ r ∷ []) h
            ∙ (append_assoc l.dequeued l.state.queue (r ∷ []) ∙ sym (rw (d, q) refl)))
  ]
  apply_order l get h = order_get l l.state.queue h
  apply_order l look h = rw ((peek-dequeue l.state).1) h

  Fits-get :
      (n : ℕ) (l : Log P) (rs : List Ref)
      → Fits n (record l { state = holding l.state rs })
      → Fits n (apply (record l { state = holding l.state rs }) get)
  unfolding apply dequeue
  Fits-get n l [] h = h
  Fits-get n l (r ∷ rs) h = (h.0, λ p. omega (arith, h.1 p))

  room-lt : (q : TaskQueue P) → is_full q ≡ false → 0 < q.maxsize → length q.queue < q.maxsize
  unfolding is_full
  room-lt q h p = ground arith

  apply-Fits : (n : ℕ) (l : Log P) (o : Op) → Fits n l → Fits n (apply l o)
  unfolding apply
  apply-Fits n l (put r) h = elim (Bool-cases (is_full l.state)) [
    | inl full ↦ (put_maxsize l r ∙ h.0, rw (put_full l r full).2 h.1)
    | inr room ↦ (
      put_maxsize l r ∙ h.0,
      λ p.
          let e = h.0 in
          let lt = room-lt l.state room (omega arith) in
          rw (put_room l r room).2 (omega (arith, length-append l.state.queue (r ∷ []))),
    )
  ]
  apply-Fits n l get h = Fits-get n l l.state.queue h
  apply-Fits n l look h = rw ((peek-dequeue l.state).1) h

  apply_all_lem :
      (n : ℕ) (l : Log P) (os : List Op)
      → InOrder l
      → Fits n l
      → InOrder (apply_all l os) × Fits n (apply_all l os)
  unfolding apply_all
  apply_all_lem n l [] o f = (o, f)
  apply_all_lem n l (x ∷ os) o f =
      apply_all_lem n (apply l x) os (apply_order l x o) (apply-Fits n l x f)

  -- Whatever calls of `enqueue`, `dequeue` and `peek` are made of a new queue, the tasks come out in
  -- the order in which they went in: those put in are those handed out and then those that wait.
  -- If the queue has a bound, no more wait than it says.
  pub apply_all-fresh :
      (store : Ref → Task P) (n : ℕ) (os : List Op)
      → ((apply_all (fresh store n) os).enqueued
          ≡ (apply_all (fresh store n) os).dequeued ++ (apply_all (fresh store n) os).state.queue)
        × ((n ≡ 0) ⊎ (length (apply_all (fresh store n) os).state.queue ≤ n))
  unfolding fresh new_queue
  apply_all-fresh store n os =
      let (o, f) = apply_all_lem n (fresh store n) os refl (refl, λ p. omega arith) in
      (
        o,
        elim (Bool-cases (ltb 0 n)) [
          | inl bound ↦ inr (f.1 (ground arith))
          | inr free ↦ inl (ground arith)
        ],
      )

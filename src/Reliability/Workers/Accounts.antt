-- ===== src/Reliability/Workers/Accounts.antt =====
-- dawn_kestrel/reliability/queue_worker.py: workers that share a queue, step by step in every order.
use dawn_kestrel.Prelude.{
  ℕ, ◌+◌, ◌≤◌, List, [], ◌∷◌, ◌++◌, length, Outcome, ◌≡◌, refl, arith, inl, inr, Bool-cases,
  string_eq,
}
use dawn_kestrel.Core.Result.{Result}
use dawn_kestrel.Reliability.Tasks.{TaskStatus, Ref, TaskQueue, dequeue, update_status}
use dawn_kestrel.Reliability.Workers.{
  Phase, idle, fetched, busy, Worker, Shared, stop_worker, fetch, fetch_from, begin, finish, mark,
  cancelled, succeeded,
}

-- a step of one worker
pub data Act (R : Type 0) : Type 0 where
  take_next call_processor : Act R
  processor_ends : Outcome (Result R) → Act R

-- tasks in the processor, in the hand, and done
unfoldable pub in_processor : Worker → ℕ
in_processor w = elim w.phase [ busy r ↦ 1 | _ ↦ 0 ]

unfoldable pub in_hand : Worker → ℕ
in_hand w = elim w.phase [ fetched r ↦ 1 | _ ↦ 0 ]

unfoldable pub done : Worker → ℕ
done w = w.processed_count + w.error_count

abbrev at_phase : Worker → Phase → Worker
at_phase w p = record w { phase = p }

abbrev pub sum : (Worker → ℕ) → List Worker → ℕ
sum f [] = 0
sum f (w ∷ ws) = f w + sum f ws

pub sum-append : (f : Worker → ℕ) (xs ys : List Worker) → sum f (xs ++ ys) ≡ sum f xs + sum f ys
sum-append f [] ys = omega arith
sum-append f (x ∷ xs) ys = omega (arith, sum-append f xs ys)

module _ {P : Type 0} where
  unfoldable pub perform : {R : Type 0} → Act R → Worker → Shared P → Worker × Shared P
  perform take_next w s = fetch w s
  perform call_processor w s = begin w s
  perform (processor_ends o) w s = finish o w s

  queue-mark : (q : TaskQueue P) (r : Ref) (status : TaskStatus) → (mark q r status).queue ≡ q.queue
  unfolding mark update_status
  queue-mark q r status = ground arith

  -- what one step changes: nothing is lost, and what is in progress is counted
  abbrev Balanced : Worker → Shared P → Worker → Shared P → Type 0
  Balanced w s w' s' =
      (in_processor w ≤ s.in_progress
        → s'.in_progress + in_processor w ≡ s.in_progress + in_processor w')
      × (length s'.tasks.queue + in_processor w' + in_hand w' + done w'
          ≡ length s.tasks.queue + in_processor w + in_hand w + done w)

  fetch-Balanced : (w : Worker) (s : Shared P) → Balanced w s (fetch w s).0 (fetch w s).1
  unfolding fetch fetch_from dequeue in_processor in_hand done
  fetch-Balanced w s = ground arith

  begin_at :
      (w : Worker) (p : Phase) (s : Shared P)
      → Balanced (at_phase w p) s (begin (at_phase w p) s).0 (begin (at_phase w p) s).1
  unfolding begin in_processor in_hand done
  begin_at w idle s = (λ h. refl, refl)
  begin_at w (fetched r) s =
      (λ h. omega arith, rw (queue-mark s.tasks r TaskStatus.running) (omega arith))
  begin_at w (busy r) s = (λ h. refl, refl)

  finish_at :
      {R : Type 0} (o : Outcome (Result R)) (w : Worker) (p : Phase) (s : Shared P)
      → Balanced (at_phase w p) s (finish o (at_phase w p) s).0 (finish o (at_phase w p) s).1
  unfolding finish in_processor in_hand done
  finish_at o w idle s = (λ h. refl, refl)
  finish_at o w (fetched r) s = (λ h. refl, refl)
  finish_at o w (busy r) s = elim (Bool-cases (succeeded o)) [
    | inl success ↦
        rw (success, queue-mark s.tasks r TaskStatus.completed) (λ h. omega arith, omega arith)
    | inr failure ↦
        rw (failure, queue-mark s.tasks r TaskStatus.failed) (λ h. omega arith, omega arith)
  ]

  pub perform-Balanced :
      {R : Type 0} (a : Act R) (w : Worker) (s : Shared P)
      → Balanced w s (perform a w s).0 (perform a w s).1
  unfolding perform
  perform-Balanced take_next w s = fetch-Balanced w s
  perform-Balanced call_processor w s = begin_at w w.phase s
  perform-Balanced (processor_ends o) w s = finish_at o w w.phase s

  pub stop_at :
      (w : Worker) (p : Phase) (s : Shared P)
      → in_processor (at_phase w p) ≤ s.in_progress
      → ((stop_worker (at_phase w p) s).1.in_progress + in_processor (at_phase w p)
          ≡ s.in_progress + in_processor (stop_worker (at_phase w p) s).0)
        × ((stop_worker (at_phase w p) s).1.tasks.queue ≡ s.tasks.queue)
        × (done (stop_worker (at_phase w p) s).0 ≡ done w)
        × (in_processor (stop_worker (at_phase w p) s).0 + in_hand (stop_worker (at_phase w p) s).0
            ≤ in_processor (at_phase w p) + in_hand (at_phase w p))
  unfolding stop_worker in_processor in_hand done cancelled
  stop_at w idle s h = ground arith
  stop_at w (fetched r) s h = ground arith
  stop_at w (busy r) s h = ground arith

-- ===== src/Reliability/Pool.antt =====
-- dawn_kestrel/reliability/queue_worker.py: `WorkerPool`. Workers that stop together are stopped one
-- after the other: their stops touch only the count of what is in progress.
pub mod Sizes
pub mod Waiting
use dawn_kestrel.Prelude.{
  ℕ, zero, suc, ◌+◌, ◌-◌, Bool, true, false, ◌&&◌, Option, none, some, List, [], ◌∷◌, ◌++◌, length,
  take, leb, ltb, if◌then◌else◌, text,
}
use dawn_kestrel.Core.Result.{Result, ok, err_code}
use dawn_kestrel.Reliability.Tasks.{TaskQueue}
use dawn_kestrel.Reliability.Workers.{Worker, Shared, new_worker, start_worker, stop_worker}

pub record WorkerPool (P : Type 0) : Type 0 where
  pub shared : Shared P
  pub num_workers : ℕ
  pub workers : List Worker
  pub is_running : Bool

-- the elements from `n` on
abbrev pub drop {ℓ} : {A : Type ℓ} → ℕ → List A → List A
drop zero xs = xs
drop (suc n) [] = []
drop (suc n) (x ∷ xs) = drop n xs

-- `count` started workers, numbered from `i`
unfoldable pub hire : (i count : ℕ) → List Worker
hire i zero = []
hire i (suc count) = (start_worker (new_worker i)).1 ∷ hire (suc i) count

unfoldable pub running_count : List Worker → ℕ
running_count [] = 0
running_count (w ∷ ws) = let rest = running_count ws in if w.is_running then suc rest else rest

unfoldable pub total : (Worker → ℕ) → List Worker → ℕ
total f [] = 0
total f (w ∷ ws) = f w + total f ws

pub record Stats : Type 0 where
  pub total_processed : ℕ
  pub total_errors : ℕ
  pub num_workers : ℕ

module _ {P : Type 0} where
  unfoldable pub new_pool : TaskQueue P → ℕ → WorkerPool P
  new_pool q num_workers = record {
    shared = record { tasks = q; in_progress = 0 };
    num_workers = num_workers;
    workers = [];
    is_running = false;
  }

  unfoldable pub stop_all : List Worker → Shared P → List Worker × Shared P
  stop_all [] s = ([], s)
  stop_all (w ∷ ws) s =
      let (w', s') = stop_worker w s in let (ws', s'') = stop_all ws s' in (w' ∷ ws', s'')

  unfoldable pub start : WorkerPool P → Result (Unit {0}) × WorkerPool P
  start p =
      if p.is_running
      then (ok tt, p)
      else (ok tt, record p { workers = hire 0 p.num_workers; is_running = true })

  unfoldable pub stop : WorkerPool P → Result (Unit {0}) × WorkerPool P
  stop p =
      if p.is_running
      then (
        ok tt,
        record p { shared = (stop_all p.workers p.shared).1; workers = []; is_running = false },
      )
      else (ok tt, p)

  -- the workers of a pool of `n` where there were `ws`
  resized : ℕ → List Worker → Shared P → List Worker × Shared P
  resized n ws s =
      if ltb (length ws) n
      then (ws ++ hire (length ws) (n - length ws), s)
      else if ltb n (length ws)
      then (take n ws, (stop_all (drop n ws) s).1)
      else (ws, s)

  unfoldable pub resize : WorkerPool P → ℕ → Result (Unit {0}) × WorkerPool P
  unfolding resized
  resize p n =
      if ltb n 1
      then (err_code (text "num_workers must be at least 1") "INVALID_SIZE", p)
      else let (ws, s) = resized n p.workers p.shared in
        (ok tt, record p { shared = s; workers = ws; num_workers = n })

  unfoldable pub get_stats : WorkerPool P → Stats
  get_stats p = record {
    total_processed = total (λ w. w.processed_count) p.workers;
    total_errors = total (λ w. w.error_count) p.workers;
    num_workers = length p.workers;
  }

  unfoldable pub is_complete : Shared P → Bool
  is_complete s = leb (length s.tasks.queue) 0 && leb s.in_progress 0

  -- One element of the list is one turn of the loop: what it sees, and the time since the start.
  -- `none`: it still waits.
  unfoldable pub wait_for_completion : Option ℕ → List (Shared P × ℕ) → Option (Result (Unit {0}))
  unfolding is_complete
  wait_for_completion timeout [] = none
  wait_for_completion timeout ((s, elapsed) ∷ later) =
      let rest = wait_for_completion timeout later in
      if is_complete s then some (ok tt) else elim timeout [
        | none ↦ rest
        | some t ↦
            if leb t elapsed
            then some (err_code (text "Timeout waiting for completion") "TIMEOUT")
            else rest
      ]

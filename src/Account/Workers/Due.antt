-- ===== src/Account/Workers/Due.antt =====
-- The jobs that the workers still have to run, counted over the workers and over their queues.
use new_server.Prelude.{
  ℕ, zero, suc, ◌+◌, ◌≤◌, ◌<◌, ◌≡◌, some, List, [], ◌∷◌, arith, length, length-append,
  if◌then◌else◌, ◌==◌, nat_eq, bytes_eq,
}
use new_server.Account.Workers.{worker_at, set_worker}
use new_server.Account.Workers.Counts.{
  count-single, count, count-append, count_worker, count_phase, count_workers,
}
use new_server.Account.Slots.{waiting, ran, popped, WorkerPhase, push_at, DbWorker}

-- All jobs that wait in a queue or are about to run, and those of one slot.
unfoldable pub to_run : WorkerPhase → ℕ
to_run waiting = 0
to_run (popped i) = 1
to_run (ran i) = 0

unfoldable pub jobs : List DbWorker → ℕ
jobs [] = 0
jobs (w ∷ ws) = to_run w.phase + length w.q + jobs ws

unfoldable pub due_phase : ℕ → WorkerPhase → ℕ
due_phase i waiting = 0
due_phase i (popped x) = if x == i then 1 else 0
due_phase i (ran x) = 0

unfoldable pub due : ℕ → List DbWorker → ℕ
due i [] = 0
due i (w ∷ ws) = due_phase i w.phase + count i w.q + due i ws

pub push_at-jobs :
    (ws : List DbWorker) (k idx : ℕ) → k < length ws → jobs (push_at ws k idx) ≡ suc (jobs ws)
unfolding push_at jobs
push_at-jobs [] k idx h = absurd (omega (arith, h))
push_at-jobs (w ∷ ws) zero idx h = omega (arith, length-append w.q (idx ∷ []))
push_at-jobs (w ∷ ws) (suc k) idx h = omega (arith, push_at-jobs ws k idx (omega (arith, h)))

pub push_at-due :
    (i : ℕ) (ws : List DbWorker) (k idx : ℕ)
    → due i (push_at ws k idx) ≤ (if idx == i then 1 else 0) + due i ws
unfolding push_at due
push_at-due i [] k idx = ground arith
push_at-due i (w ∷ ws) zero idx = omega (arith, count-append i w.q (idx ∷ []), count-single i idx)
push_at-due i (w ∷ ws) (suc k) idx = omega (arith, push_at-due i ws k idx)

pub set_worker-jobs :
    (ws : List DbWorker) (k : ℕ) (w x : DbWorker)
    → worker_at ws k ≡ some w
    → jobs (set_worker ws k x) + (to_run w.phase + length w.q)
      ≡ jobs ws + (to_run x.phase + length x.q)
unfolding set_worker worker_at jobs
set_worker-jobs [] k w x e = absurd (cc e)
set_worker-jobs (y ∷ ys) zero w x e = let same : y ≡ w = cc e in rw (← same) (omega arith)
set_worker-jobs (y ∷ ys) (suc k) w x e = omega (arith, set_worker-jobs ys k w x e)

pub set_worker-due :
    (i : ℕ) (ws : List DbWorker) (k : ℕ) (w x : DbWorker)
    → worker_at ws k ≡ some w
    → due i (set_worker ws k x) + (due_phase i w.phase + count i w.q)
      ≡ due i ws + (due_phase i x.phase + count i x.q)
unfolding set_worker worker_at due
set_worker-due i [] k w x e = absurd (cc e)
set_worker-due i (y ∷ ys) zero w x e = let same : y ≡ w = cc e in rw (← same) (omega arith)
set_worker-due i (y ∷ ys) (suc k) w x e = omega (arith, set_worker-due i ys k w x e)

phase_le : (i : ℕ) (p : WorkerPhase) → due_phase i p ≤ count_phase i p
unfolding due_phase count_phase
phase_le i waiting = omega arith
phase_le i (popped x) = omega arith
phase_le i (ran x) = omega arith

pub due_le : (i : ℕ) (ws : List DbWorker) → due i ws ≤ count_workers i ws
unfolding due count_workers count_worker
due_le i [] = omega arith
due_le i (w ∷ ws) = omega (arith, phase_le i w.phase, due_le i ws)

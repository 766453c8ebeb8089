-- ===== src/Account/Workers/Turns.antt =====
-- The end of a worker's queue.
use new_server.Prelude.{
  ℕ, zero, suc, ◌+◌, ◌*◌, ◌≡◌, refl, ap, ◌∙◌, some, List, [], ◌∷◌, arith, length,
}
use new_server.Account.Slots.{ran, popped, waiting, DqsLine, WorkerPhase, DbWorker}
use new_server.Account.Workers.{
  set_worker, after_event, turn, Queries, Event, worker_event, worker_at, worker_step, after_events,
}

-- How many turns a worker needs to come to an empty queue.
unfoldable pub phase_turns : WorkerPhase → ℕ
phase_turns waiting = 0
phase_turns (popped i) = 2
phase_turns (ran i) = 1

unfoldable pub turns_left : DbWorker → ℕ
turns_left w = length w.q * 3 + phase_turns w.phase

-- That many turns of one worker.
unfoldable pub turns : ℕ → ℕ → List Event
turns k zero = []
turns k (suc n) = turn k ∷ turns k n

-- The worker after a turn.
next_worker : WorkerPhase → List ℕ → DbWorker
next_worker waiting [] = record { phase = waiting; q = [] }
next_worker waiting (idx ∷ rest) = record { phase = popped idx; q = rest }
next_worker (popped idx) q = record { phase = ran idx; q = q }
next_worker (ran idx) q = record { phase = waiting; q = q }

set_worker-at :
    (ws : List DbWorker) (k : ℕ) (w x : DbWorker)
    → worker_at ws k ≡ some w
    → worker_at (set_worker ws k x) k ≡ some x
unfolding worker_at set_worker
set_worker-at [] k w x e = absurd (cc e)
set_worker-at (y ∷ ys) zero w x e = refl
set_worker-at (y ∷ ys) (suc k) w x e = set_worker-at ys k w x e

event-at :
    (db : Queries) (s : DqsLine) (k : ℕ) (phase : WorkerPhase) (q : List ℕ)
    → let w : DbWorker = record { phase = phase; q = q } in
      worker_at s.workers k ≡ some w
      → worker_at (worker_event db s k w).workers k ≡ some (next_worker phase q)
unfolding worker_event next_worker
event-at db s k waiting [] e = e
event-at db s k waiting (idx ∷ rest) e =
    set_worker-at s.workers k (record { phase = waiting; q = idx ∷ rest })
      (record { phase = popped idx; q = rest }) e
event-at db s k (popped idx) q e =
    set_worker-at s.workers k (record { phase = popped idx; q = q })
      (record { phase = ran idx; q = q }) e
event-at db s k (ran idx) q e =
    set_worker-at s.workers k (record { phase = ran idx; q = q })
      (record { phase = waiting; q = q }) e

next-turns :
    (phase : WorkerPhase) (q : List ℕ) (n : ℕ)
    → length q * 3 + phase_turns phase ≡ suc n
    → turns_left (next_worker phase q) ≡ n
unfolding turns_left phase_turns next_worker
next-turns waiting [] n e = omega (arith, e)
next-turns waiting (idx ∷ rest) n e = omega (arith, e)
next-turns (popped idx) q n e = omega (arith, e)
next-turns (ran idx) q n e = omega (arith, e)

none-left :
    (phase : WorkerPhase) (q : List ℕ)
    → length q * 3 + phase_turns phase ≡ 0
    → (phase ≡ waiting) × (q ≡ [])
unfolding phase_turns
none-left waiting [] e = (refl, refl)
none-left waiting (idx ∷ rest) e = absurd (omega (arith, e))
none-left (popped idx) q e = absurd (omega (arith, e))
none-left (ran idx) q e = absurd (omega (arith, e))

step-at :
    (db : Queries) (s : DqsLine) (k : ℕ) (w : DbWorker)
    → worker_at s.workers k ≡ some w
    → worker_at (worker_step db s k).workers k ≡ some (next_worker w.phase w.q)
unfolding worker_step
step-at db s k w e = rw (e, worker_step) (event-at db s k w.phase w.q e)

turns_end :
    (db : Queries) (n : ℕ) (s : DqsLine) (k : ℕ) (w : DbWorker)
    → worker_at s.workers k ≡ some w
    → turns_left w ≡ n
    → worker_at (after_events db s (turns k n)).workers k
      ≡ some (record { phase = waiting; q = [] })
unfolding after_events after_event turns turns_left
turns_end db zero s k w e over =
    let (idle, done) = none-left w.phase w.q over in
    e ∙ ap some (λ i. record { phase = idle i; q = done i })
turns_end db (suc n) s k w e left =
    turns_end db n (worker_step db s k) k (next_worker w.phase w.q) (step-at db s k w e)
      (next-turns w.phase w.q n left)

-- Three turns for each queued job, and those left of the job in hand, bring a worker to the end of
-- its queue, where it waits, whatever the queries answer.
pub worker_drains :
    (db : Queries) (s : DqsLine) (k : ℕ) (w : DbWorker)
    → worker_at s.workers k ≡ some w
    → worker_at (after_events db s (turns k (turns_left w))).workers k
      ≡ some (record { phase = waiting; q = [] })
worker_drains db s k w e = turns_end db (turns_left w) s k w e refl

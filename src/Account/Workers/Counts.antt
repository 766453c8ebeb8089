-- ===== src/Account/Workers/Counts.antt =====
-- How often a slot occurs in the queues of the workers.
use new_server.Prelude.{
  ℕ, zero, suc, ◌+◌, ◌<◌, ◌≡◌, refl, some, List, [], ◌∷◌, ◌++◌, arith, length, if◌then◌else◌, ◌==◌,
  nat_eq, bytes_eq,
}
use new_server.Account.Workers.{worker_at, set_worker}
use new_server.Account.Slots.{waiting, ran, popped, DbWorker, push_at, WorkerPhase}

-- How often a slot stands in a list, with a worker, and among the workers.
unfoldable pub count : ℕ → List ℕ → ℕ
count i [] = 0
count i (x ∷ xs) = (if x == i then 1 else 0) + count i xs

unfoldable pub count_phase : ℕ → WorkerPhase → ℕ
count_phase i waiting = 0
count_phase i (popped x) = if x == i then 1 else 0
count_phase i (ran x) = if x == i then 1 else 0

unfoldable pub count_worker : ℕ → DbWorker → ℕ
count_worker i w = count_phase i w.phase + count i w.q

unfoldable pub count_workers : ℕ → List DbWorker → ℕ
count_workers i [] = 0
count_workers i (w ∷ ws) = count_worker i w + count_workers i ws

pub count-append : (i : ℕ) (xs ys : List ℕ) → count i (xs ++ ys) ≡ count i xs + count i ys
unfolding count
count-append i [] ys = omega arith
count-append i (x ∷ xs) ys = omega (arith, count-append i xs ys)

pub count-single : (i x : ℕ) → count i (x ∷ []) ≡ (if x == i then 1 else 0)
unfolding count
count-single i x = omega arith

pub count-cons : (i x : ℕ) (xs : List ℕ) → count i (x ∷ xs) ≡ (if x == i then 1 else 0) + count i xs
unfolding count
count-cons i x xs = refl

pub count_self : (i : ℕ) (xs : List ℕ) → 0 < count i (i ∷ xs)
unfolding count
count_self i xs = ground arith

pub push_at-count :
    (i : ℕ) (ws : List DbWorker) (k idx : ℕ)
    → k < length ws
    → count_workers i (push_at ws k idx) ≡ (if idx == i then 1 else 0) + count_workers i ws
unfolding push_at count_workers count_worker
push_at-count i [] k idx h = absurd (omega (arith, h))
push_at-count i (w ∷ ws) zero idx h =
    omega (arith, count-append i w.q (idx ∷ []), count-single i idx)
push_at-count i (w ∷ ws) (suc k) idx h = omega (arith, push_at-count i ws k idx (omega (arith, h)))

pub set_worker-count :
    (i : ℕ) (ws : List DbWorker) (k : ℕ) (w x : DbWorker)
    → worker_at ws k ≡ some w
    → count_workers i (set_worker ws k x) + count_worker i w ≡ count_workers i ws + count_worker i x
unfolding set_worker worker_at count_workers
set_worker-count i [] k w x e = absurd (cc e)
set_worker-count i (y ∷ ys) zero w x e = let same : y ≡ w = cc e in rw (← same) (omega arith)
set_worker-count i (y ∷ ys) (suc k) w x e = omega (arith, set_worker-count i ys k w x e)

pub count-nil : (i : ℕ) → count i [] ≡ 0
unfolding count
count-nil i = refl

-- ===== src/Account/Workers/Partition.antt =====
-- Where the slots of the database jobs are: free, in a shard's queue, or with its worker.
use native.Mathlib.Nat.{mod-lt, zero-lt-suc}
use new_server.Prelude.{
  ℕ, suc, ◌+◌, ◌%◌, ◌≤◌, ◌<◌, ◌≡◌, refl, ap, ◌∙◌, inl, inr, Bool, true, false, some, List, [], ◌∷◌,
  ◌++◌, arith, length, is_empty, put, ltb, if◌then◌else◌, ◌==◌, Bool-cases, Option-cases, nat_eq,
  bytes_eq,
}
use new_server.Account.Jobs.{success}
use new_server.Account.Workers.Counts.{set_worker-count, count, count_phase}
use new_server.Account.Workers.Counts.{
  count-single, count-append, push_at-count, count_self, count_phase, count_workers, count-cons,
  count_worker,
}
use new_server.Account.Workers.{
  worker_at, post_dqs_result, Queries, worker_event, on_dqs_run_one, worker_step,
}
use new_server.Account.Slots.{
  push_free, count_drop, waiting, ran, popped, WorkerPhase, SlotData, DbWorker, recycle_dqs_slot,
  shard_manager_push, push_dqs, DqsLine,
}

-- Each slot of the pool is in one place, and nothing else is in any.
pub record IsPartitioned (s : DqsLine) : Type 0 where
  pub within : (i : ℕ) → i < s.slot_count → count i s.empty + count_workers i s.workers ≡ 1
  pub beyond : (i : ℕ) → s.slot_count ≤ i → count i s.empty + count_workers i s.workers ≡ 0

abbrev places : DqsLine → ℕ → ℕ
places s i = count i s.empty + count_workers i s.workers

-- A step that moves slots only from place to place.
record Moves (s s' : DqsLine) : Type 0 where
  same_pool : s'.slot_count ≡ s.slot_count
  same_places : (i : ℕ) → places s' i ≡ places s i

Moves-IsPartitioned : (s s' : DqsLine) → Moves s s' → IsPartitioned s → IsPartitioned s'
Moves-IsPartitioned s s' m p = record {
  within = λ i h. m.same_places i ∙ p.within i (omega (arith, h, m.same_pool));
  beyond = λ i h. m.same_places i ∙ p.beyond i (omega (arith, h, m.same_pool));
}

pub in_pool : (s : DqsLine) (i : ℕ) → IsPartitioned s → 0 < places s i → i < s.slot_count
in_pool s i p h = elim (Bool-cases (ltb i s.slot_count)) [
  | inl e ↦ ground arith
  | inr e ↦ absurd (omega (arith, h, p.beyond i (ground arith)))
]

module _ (s : DqsLine) (idx : ℕ) where
  recycle-empty : idx < s.slot_count → (recycle_dqs_slot s idx).empty ≡ s.empty ++ (idx ∷ [])
  unfolding recycle_dqs_slot
  recycle-empty h = ground arith

  recycle-rest :
      ((recycle_dqs_slot s idx).workers ≡ s.workers)
      × ((recycle_dqs_slot s idx).slot_count ≡ s.slot_count)
  unfolding recycle_dqs_slot
  recycle-rest = ground arith

taken : DqsLine → SlotData → ℕ → List ℕ → DqsLine
taken s held idx rest = record s {
  slots = put s.slots idx (record { result = success; in_use = true; done = false; held = held });
  empty = rest;
}

shard_push-count :
    (i : ℕ) (ws : List DbWorker) (shard idx : ℕ)
    → is_empty ws ≡ false
    → count_workers i (shard_manager_push ws shard idx)
      ≡ (if idx == i then 1 else 0) + count_workers i ws
unfolding shard_manager_push
shard_push-count i [] shard idx some_worker = absurd (cc some_worker)
shard_push-count i (w ∷ ws) shard idx some_worker =
    push_at-count i (w ∷ ws) (shard % suc (length ws)) idx (mod-lt shard (zero-lt-suc (length ws)))

push-Moves :
    (s : DqsLine) (held : SlotData) (shard idx : ℕ) (rest : List ℕ)
    → IsPartitioned s
    → s.empty ≡ idx ∷ rest
    → Moves s (push_dqs s held shard idx rest).0
unfolding push_dqs taken
push-Moves s held shard idx rest p e =
    let free : (i : ℕ) → count i s.empty ≡ (if idx == i then 1 else 0) + count i rest =
      λ i. rw e (count-cons i idx rest) in
    let known : idx < s.slot_count =
      in_pool s idx p (omega (arith, free idx, ap (count idx) e, count_self idx rest)) in
    let u = taken s held idx rest in
    elim (Bool-cases (is_empty s.workers)) [
      | inl none_there ↦ rw none_there (record {
        same_pool = (recycle-rest u idx).1;
        same_places = λ i.
            rw (recycle-empty u idx known, (recycle-rest u idx).0)
              (omega (arith, free i, count-append i rest (idx ∷ []), count-single i idx));
      })
      | inr there ↦ rw there (record {
        same_pool = refl;
        same_places = λ i. omega (arith, free i, shard_push-count i s.workers shard idx there);
      })
    ]

run_one-same :
    (db : Queries) (s : DqsLine) (idx : ℕ)
    → ((on_dqs_run_one db s idx).empty ≡ s.empty)
      × ((on_dqs_run_one db s idx).slot_count ≡ s.slot_count)
unfolding on_dqs_run_one post_dqs_result
run_one-same db s idx = ground arith

worker-Moves :
    (db : Queries) (s : DqsLine) (k : ℕ) (phase : WorkerPhase) (q : List ℕ)
    → let w : DbWorker = record { phase = phase; q = q } in
      IsPartitioned s → worker_at s.workers k ≡ some w → Moves s (worker_event db s k w)
unfolding worker_event count_worker count_phase
worker-Moves db s k waiting [] p at = record { same_pool = refl; same_places = λ i. refl }
worker-Moves db s k waiting (idx ∷ rest) p at = record {
  same_pool = refl;
  same_places = λ i.
      let w : DbWorker = record { phase = waiting; q = idx ∷ rest } in
      let x : DbWorker = record { phase = popped idx; q = rest } in
      omega (arith, set_worker-count i s.workers k w x at, count-cons i idx rest);
}
worker-Moves db s k (popped idx) q p at =
    let same = run_one-same db s idx in
    record {
      same_pool = same.1;
      same_places = λ i.
          let w : DbWorker = record { phase = popped idx; q = q } in
          let x : DbWorker = record { phase = ran idx; q = q } in
          rw (same.0) (omega (arith, set_worker-count i s.workers k w x at));
    }
worker-Moves db s k (ran idx) q p at =
    let w : DbWorker = record { phase = ran idx; q = q } in
    let x : DbWorker = record { phase = waiting; q = q } in
    let known : idx < s.slot_count =
      in_pool s idx p (ground (arith, set_worker-count idx s.workers k w x at)) in
    record {
      same_pool = (recycle-rest s idx).1;
      same_places = λ i. rw (recycle-empty s idx known) (
          omega (
            arith,
            set_worker-count i s.workers k w x at,
            count-append i s.empty (idx ∷ []),
            count-single i idx,
          ));
    }

turn-Moves : (db : Queries) (s : DqsLine) (k : ℕ) → IsPartitioned s → Moves s (worker_step db s k)
unfolding worker_step
turn-Moves db s k p = elim (Option-cases (worker_at s.workers k)) [
  | inl e ↦ rw (e, worker_step) (record { same_pool = refl; same_places = λ i. refl })
  | inr (w, e) ↦ rw (e, worker_step) (worker-Moves db s k w.phase w.q p e)
]

push-IsPartitioned :
    (s : DqsLine) (held : SlotData) (shard idx : ℕ) (rest : List ℕ)
    → IsPartitioned s
    → s.empty ≡ idx ∷ rest
    → IsPartitioned (push_dqs s held shard idx rest).0
push-IsPartitioned s held shard idx rest p e =
    Moves-IsPartitioned s (push_dqs s held shard idx rest).0 (push-Moves s held shard idx rest p e)
      p

pub turn-IsPartitioned :
    (db : Queries) (s : DqsLine) (k : ℕ) → IsPartitioned s → IsPartitioned (worker_step db s k)
turn-IsPartitioned db s k p = Moves-IsPartitioned s (worker_step db s k) (turn-Moves db s k p) p

pub drop-IsPartitioned : (o : DqsLine × Bool) → IsPartitioned o.0 → IsPartitioned (count_drop o).0
unfolding count_drop
drop-IsPartitioned (s, true) p = p
drop-IsPartitioned (s, false) p = record { within = p.within; beyond = p.beyond }

pub free-IsPartitioned :
    (s : DqsLine) (held : SlotData) (shard : ℕ) (free : List ℕ)
    → IsPartitioned s
    → s.empty ≡ free
    → IsPartitioned (push_free s held shard free).0
unfolding push_free
free-IsPartitioned s held shard [] p e = p
free-IsPartitioned s held shard (idx ∷ rest) p e = push-IsPartitioned s held shard idx rest p e

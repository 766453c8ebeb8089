-- ===== src/Account/Workers/Answers.antt =====
-- The jobs that were accepted against the results that were posted.
use native.Mathlib.Nat.{mod-lt, zero-lt-suc}
use new_server.Prelude.{
  ℕ, suc, ◌+◌, ◌%◌, ◌≤◌, ◌<◌, ◌≡◌, refl, ap, ◌∙◌, inl, inr, Bool, true, false, Option, none, some,
  List, [], ◌∷◌, arith, length, length-append, is_empty, Map, put, if◌then◌else◌, nat_beq_iff, ◌==◌,
  Bool-cases, Option-cases, nat_eq, bytes_eq,
}
use new_server.Account.Workers.Partition.{in_pool, IsPartitioned}
use new_server.Account.Jobs.{success}
use new_server.Account.Workers.Counts.{count-cons, set_worker-count, count_phase, count_worker}
use new_server.Account.Workers.Due.{
  due_le, set_worker-due, set_worker-jobs, due_phase, push_at-jobs, push_at-due, jobs, to_run, due,
}
use new_server.Account.Slots.{
  waiting, popped, ran, WorkerPhase, no_data, character_list_data, DqsResult, auth_data, DbWorker,
  DqsLine, push_dqs, recycle_dqs_slot, SlotData, shard_manager_push, DqsSlot,
}
use new_server.Account.Workers.{
  set_worker, post_dqs_result, worker_at, Queries, worker_step, on_dqs_run_one, result_of,
  worker_event,
}

unfoldable pub has_data : SlotData → Bool
has_data no_data = false
has_data (auth_data a) = true
has_data (character_list_data c) = true

unfoldable pub holds_job : Option DqsSlot → Bool
holds_job none = false
holds_job (some slot) = has_data slot.held

-- Every slot whose job has not run yet holds one.
abbrev pub AllHeld : DqsLine → Type 0
AllHeld s = (i : ℕ) → 0 < due i s.workers → holds_job (s.slots i) ≡ true

-- Accepted jobs that are not answered yet, and answers that were not taken yet.
abbrev pub open_jobs : DqsLine → ℕ
open_jobs s = jobs s.workers + length s.results

result_of-some :
    (db : Queries) (s : DqsLine) (held : SlotData)
    → has_data held ≡ true
    → (r : DqsResult) × (result_of db s held ≡ some r)
unfolding has_data result_of
result_of-some db s no_data h = absurd (cc h)
result_of-some db s (auth_data a) h = (_, refl)
result_of-some db s (character_list_data c) h = (_, refl)

held-slot :
    (o : Option DqsSlot)
    → holds_job o ≡ true
    → (slot : DqsSlot) × (o ≡ some slot) × (has_data slot.held ≡ true)
unfolding holds_job
held-slot none h = absurd (cc h)
held-slot (some slot) h = (slot, refl, h)

-- A slot with a job posts one result, and nothing else changes.
run_one-posts :
    (db : Queries) (s : DqsLine) (idx : ℕ)
    → holds_job (s.slots idx) ≡ true
    → (r : DqsResult) × (on_dqs_run_one db s idx ≡ post_dqs_result s r)
unfolding on_dqs_run_one
run_one-posts db s idx held =
    let (slot, e, full) = held-slot (s.slots idx) held in
    let (r, f) = result_of-some db s slot.held full in
    (r, rw (e, on_dqs_run_one) (rw (f, on_dqs_run_one) refl))

-- What an event does to the open jobs, where `accepted` are new and `drained` are taken.
pub record Counts (s s' : DqsLine) (accepted drained : ℕ) : Type 0 where
  pub balance : open_jobs s' + drained ≡ open_jobs s + accepted
  pub held : AllHeld s'

recycle-same :
    (s : DqsLine) (idx : ℕ)
    → ((recycle_dqs_slot s idx).workers ≡ s.workers)
      × ((recycle_dqs_slot s idx).results ≡ s.results)
unfolding recycle_dqs_slot
recycle-same s idx = ground arith

empty-nil : (ws : List DbWorker) → is_empty ws ≡ true → (i : ℕ) → due i ws ≡ 0
unfolding due
empty-nil [] e i = refl
empty-nil (w ∷ ws) e i = absurd (cc e)

shard-jobs :
    (ws : List DbWorker) (shard idx : ℕ)
    → is_empty ws ≡ false
    → jobs (shard_manager_push ws shard idx) ≡ suc (jobs ws)
unfolding shard_manager_push
shard-jobs [] shard idx there = absurd (cc there)
shard-jobs (w ∷ ws) shard idx there =
    push_at-jobs (w ∷ ws) (shard % suc (length ws)) idx (mod-lt shard (zero-lt-suc (length ws)))

shard-due :
    (i : ℕ) (ws : List DbWorker) (shard idx : ℕ)
    → due i (shard_manager_push ws shard idx) ≤ (if idx == i then 1 else 0) + due i ws
unfolding shard_manager_push due
shard-due i [] shard idx = ground arith
shard-due i (w ∷ ws) shard idx = push_at-due i (w ∷ ws) (shard % suc (length ws)) idx

put-held :
    (slots : Map ℕ DqsSlot) (idx i : ℕ) (slot : DqsSlot)
    → has_data slot.held ≡ true
    → ((idx == i) ≡ false → holds_job (slots i) ≡ true)
    → holds_job (put slots idx slot i) ≡ true
unfolding holds_job
put-held slots idx i slot full other = elim (Bool-cases (idx == i)) [
  | inl hit ↦ rw (hit, holds_job, put) full
  | inr miss ↦ rw (miss, holds_job, put) (other miss)
]

pub push-Counts :
    (s : DqsLine) (held : SlotData) (shard idx : ℕ) (rest : List ℕ)
    → has_data held ≡ true
    → AllHeld s
    → let o = push_dqs s held shard idx rest in Counts s o.0 (if o.1 then 1 else 0) 0
unfolding push_dqs
push-Counts s held shard idx rest full all = elim (Bool-cases (is_empty s.workers)) [
  | inl none_there ↦
      let u : DqsLine = record s {
        slots =
            put s.slots idx (record { result = success; in_use = true; done = false; held = held });
        empty = rest;
      } in
      let (ws, rs) = recycle-same u idx in
      rw none_there (record {
        balance = omega (arith, ap jobs ws, ap (length {A = DqsResult}) rs);
        held = λ i h. absurd (omega (arith, h, ap (due i) ws, empty-nil s.workers none_there i));
      })
  | inr there ↦ rw there (record {
    balance = omega (arith, shard-jobs s.workers shard idx there);
    held = λ i h.
        put-held s.slots idx i
          (record { result = success; in_use = true; done = false; held = held }) full
          (λ miss. all i (ground (arith, h, miss, shard-due i s.workers shard idx)));
  })
]

recycle-slots :
    (s : DqsLine) (idx i : ℕ) → (idx == i) ≡ false → (recycle_dqs_slot s idx).slots i ≡ s.slots i
unfolding recycle_dqs_slot
recycle-slots s idx i other = ground arith

-- The slot of a job that has run is not due anywhere.
ran-not_due :
    (s : DqsLine) (k idx : ℕ) (q : List ℕ)
    → IsPartitioned s
    → worker_at s.workers k ≡ some (record { phase = ran idx; q = q })
    → due idx s.workers ≡ 0
unfolding count_worker count_phase due_phase
ran-not_due s k idx q p at =
    let w : DbWorker = record { phase = ran idx; q = q } in
    let x : DbWorker = record { phase = waiting; q = q } in
    let ws' = set_worker s.workers k x in
    let one : (idx == idx) ≡ true = (nat_beq_iff idx idx).1 refl in
    let known : idx < s.slot_count =
      in_pool s idx p (ground (arith, set_worker-count idx s.workers k w x at)) in
    ground (
      arith,
      one,
      p.within idx known,
      set_worker-count idx s.workers k w x at,
      set_worker-due idx s.workers k w x at,
      due_le idx ws',
    )

worker-Counts :
    (db : Queries) (s : DqsLine) (k : ℕ) (phase : WorkerPhase) (q : List ℕ)
    → let w : DbWorker = record { phase = phase; q = q } in
      IsPartitioned s
      → AllHeld s
      → worker_at s.workers k ≡ some w
      → Counts s (worker_event db s k w) 0 0
unfolding worker_event to_run due_phase post_dqs_result
worker-Counts db s k waiting [] p all at = record { balance = refl; held = all }
worker-Counts db s k waiting (idx ∷ rest) p all at =
    let w : DbWorker = record { phase = waiting; q = idx ∷ rest } in
    let x : DbWorker = record { phase = popped idx; q = rest } in
    record {
      balance = omega (arith, set_worker-jobs s.workers k w x at);
      held = λ i h.
          all i (omega (arith, h, set_worker-due i s.workers k w x at, count-cons i idx rest));
    }
worker-Counts db s k (popped idx) q p all at =
    let w : DbWorker = record { phase = popped idx; q = q } in
    let x : DbWorker = record { phase = ran idx; q = q } in
    let one : (idx == idx) ≡ true = (nat_beq_iff idx idx).1 refl in
    let job : holds_job (s.slots idx) ≡ true =
      all idx (ground (arith, one, set_worker-due idx s.workers k w x at)) in
    let (r, e) = run_one-posts db s idx job in
    rw e (record {
      balance = omega (arith, set_worker-jobs s.workers k w x at, length-append s.results (r ∷ []));
      held = λ i h. all i (omega (arith, h, set_worker-due i s.workers k w x at));
    })
worker-Counts db s k (ran idx) q p all at =
    let w : DbWorker = record { phase = ran idx; q = q } in
    let x : DbWorker = record { phase = waiting; q = q } in
    let (ws, rs) = recycle-same s idx in
    record {
      balance = omega (arith, set_worker-jobs s.workers k w x at, ap (length {A = DqsResult}) rs);
      held = λ i h.
          let due_before : 0 < due i s.workers =
            omega (arith, h, set_worker-due i s.workers k w x at) in
          elim (Bool-cases (idx == i)) [
            | inl hit ↦
                let same : idx ≡ i = (nat_beq_iff idx i).0 hit in
                absurd (
                  omega
                    (arith, due_before, ran-not_due s k idx q p at, ap (λ j. due j s.workers) same))
            | inr miss ↦ ap holds_job (recycle-slots s idx i miss) ∙ all i due_before
          ];
    }

pub turn-Counts :
    (db : Queries) (s : DqsLine) (k : ℕ)
    → IsPartitioned s
    → AllHeld s
    → Counts s (worker_step db s k) 0 0
unfolding worker_step
turn-Counts db s k p all = elim (Option-cases (worker_at s.workers k)) [
  | inl e ↦ rw (e, worker_step) (record { balance = refl; held = all })
  | inr (w, e) ↦ rw (e, worker_step) (worker-Counts db s k w.phase w.q p all e)
]

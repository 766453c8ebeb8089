-- ===== src/Account/Workers/Balance.antt =====
-- Requests accepted and results taken, over any sequence of events.
use new_server.Prelude.{
  ℕ, zero, suc, ◌+◌, ◌≡◌, refl, Bool, true, false, List, [], ◌∷◌, arith, length, is_empty,
  if◌then◌else◌, ◌==◌, nat_eq, bytes_eq,
}
use new_server.Account.Workers.Partition.{IsPartitioned}
use new_server.Account.Workers.Runs.{event-IsPartitioned, idle_workers-count, init-IsPartitioned}
use new_server.Account.Workers.Answers.{
  turn-Counts, open_jobs, push-Counts, has_data, Counts, AllHeld,
}
use new_server.Account.Workers.Due.{due_le, to_run, jobs}
use new_server.Account.Workers.{
  drain, turn, request_character_list, drain_dqs_results, request_auth, Event, after_events,
  after_event, Queries,
}
use new_server.Account.Slots.{
  character_list_data, route_character_list_shard, auth_data, route_auth_shard,
  push_account_character_list_dqs, push_account_auth_dqs, SlotData, idle_workers, DqsLine,
  count_drop, push_free, init_dqs,
}

-- The requests of an event that were accepted, and the results that it takes.
unfoldable pub accepted_by : DqsLine → Event → ℕ
accepted_by s (request_auth payload) = if (push_account_auth_dqs s payload).1 then 1 else 0
accepted_by s (request_character_list payload) =
    if (push_account_character_list_dqs s payload).1 then 1 else 0
accepted_by s (turn k) = 0
accepted_by s drain = 0

unfoldable pub drained_by : DqsLine → Event → ℕ
drained_by s (request_auth payload) = 0
drained_by s (request_character_list payload) = 0
drained_by s (turn k) = 0
drained_by s drain = length (drain_dqs_results s).1

unfoldable pub accepted : Queries → DqsLine → List Event → ℕ
accepted db s [] = 0
accepted db s (e ∷ es) = accepted_by s e + accepted db (after_event db s e) es

unfoldable pub drained : Queries → DqsLine → List Event → ℕ
drained db s [] = 0
drained db s (e ∷ es) = drained_by s e + drained db (after_event db s e) es

unchanged : (s : DqsLine) → AllHeld s → Counts s s 0 0
unchanged s all = record { balance = refl; held = all }

drop-Counts :
    (s : DqsLine) (o : DqsLine × Bool)
    → Counts s o.0 (if o.1 then 1 else 0) 0
    → Counts s (count_drop o).0 (if (count_drop o).1 then 1 else 0) 0
unfolding count_drop
drop-Counts s (u, true) c = c
drop-Counts s (u, false) c = record { balance = c.balance; held = c.held }

free-Counts :
    (s : DqsLine) (held : SlotData) (shard : ℕ) (free : List ℕ)
    → has_data held ≡ true
    → AllHeld s
    → let o = push_free s held shard free in Counts s o.0 (if o.1 then 1 else 0) 0
unfolding push_free
free-Counts s held shard [] full all = unchanged s all
free-Counts s held shard (idx ∷ rest) full all = push-Counts s held shard idx rest full all

either-Counts :
    (s : DqsLine) (b : Bool) (x y : DqsLine × Bool)
    → Counts s x.0 (if x.1 then 1 else 0) 0
    → Counts s y.0 (if y.1 then 1 else 0) 0
    → let o = if b then x else y in Counts s o.0 (if o.1 then 1 else 0) 0
either-Counts s true x y c d = c
either-Counts s false x y c d = d

event-Counts :
    (db : Queries) (s : DqsLine) (e : Event)
    → IsPartitioned s
    → AllHeld s
    → Counts s (after_event db s e) (accepted_by s e) (drained_by s e)
unfolding after_event accepted_by drained_by push_account_auth_dqs push_account_character_list_dqs
    drain_dqs_results has_data
event-Counts db s (request_auth payload) p all =
    let shard = route_auth_shard s.shard_count payload in
    drop-Counts s (push_free s (auth_data payload) shard s.empty)
      (free-Counts s (auth_data payload) shard s.empty refl all)
event-Counts db s (request_character_list payload) p all =
    let shard = route_character_list_shard s.shard_count payload in
    let pushed = push_free s (character_list_data payload) shard s.empty in
    let c = free-Counts s (character_list_data payload) shard s.empty refl all in
    either-Counts s (is_empty s.empty) (count_drop pushed) pushed (drop-Counts s pushed c) c
event-Counts db s (turn k) p all = turn-Counts db s k p all
event-Counts db s drain p all = record { balance = omega arith; held = all }

init-AllHeld : (shards : ℕ) → AllHeld (init_dqs shards)
unfolding init_dqs
init-AllHeld shards i h = absurd (
    omega (
      arith,
      h,
      due_le i (idle_workers (if shards == 0 then 1 else shards)),
      idle_workers-count i (if shards == 0 then 1 else shards),
    ))

idle-jobs : (n : ℕ) → jobs (idle_workers n) ≡ 0
unfolding jobs idle_workers to_run
idle-jobs zero = refl
idle-jobs (suc n) = omega (arith, idle-jobs n)

after-balance :
    (db : Queries) (s : DqsLine) (es : List Event)
    → IsPartitioned s
    → AllHeld s
    → open_jobs (after_events db s es) + drained db s es ≡ open_jobs s + accepted db s es
unfolding after_events drained accepted
after-balance db s [] p all = refl
after-balance db s (e ∷ es) p all =
    let c = event-Counts db s e p all in
    omega (
      arith,
      c.balance,
      after-balance db (after_event db s e) es (event-IsPartitioned db s e p) c.held,
    )

-- From the start, whatever the order of the requests, the workers' turns and the drains: the requests
-- that were accepted are as many as the results that were taken, the results that wait to be taken
-- and the jobs that still have to be run, together.
pub answers_balance :
    (db : Queries) (shards : ℕ) (es : List Event)
    → jobs (after_events db (init_dqs shards) es).workers
        + length (after_events db (init_dqs shards) es).results
        + drained db (init_dqs shards) es
      ≡ accepted db (init_dqs shards) es
unfolding init_dqs
answers_balance db shards es =
    let s = init_dqs shards in
    omega (
      arith,
      after-balance db s es (init-IsPartitioned shards) (init-AllHeld shards),
      idle-jobs (if shards == 0 then 1 else shards),
    )

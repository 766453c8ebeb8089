-- ===== src/Account/Workers/Runs.antt =====
-- The slots over any sequence of events, and the end of a worker's queue.
use native.Mathlib.Nat.{mod-lt}
use new_server.Prelude.{
  ℕ, zero, suc, ◌+◌, ◌<◌, ◌≡◌, refl, Bool, true, false, List, [], ◌∷◌, arith, is_empty, ltb,
  if◌then◌else◌, ◌==◌, nat_eq, bytes_eq,
}
use new_server.Account.Workers.Counts.{count, count-cons}
use new_server.Account.Jobs.{AccountCharacterListRequest, AccountAuthRequest}
use new_server.Account.Workers.Partition.{
  free-IsPartitioned, turn-IsPartitioned, drop-IsPartitioned, IsPartitioned,
}
use new_server.Account.Workers.Counts.{
  count-nil, count_phase, count-cons, count_worker, count_workers,
}
use new_server.Account.Workers.{
  drain, request_character_list, request_auth, drain_dqs_results, turn, Queries, after_events,
  after_event, Event,
}
use new_server.Account.Slots.{
  count_drop, push_free, character_list_data, auth_data, fnv_1a, k_max_dqs_slot_count,
  push_account_character_list_dqs, route_character_list_shard, push_account_auth_dqs, DqsLine,
  init_dqs, idle_workers, fill_empty, route_auth_shard,
}

either-IsPartitioned :
    (b : Bool) (x y : DqsLine × Bool)
    → IsPartitioned x.0
    → IsPartitioned y.0
    → IsPartitioned (if b then x else y).0
either-IsPartitioned true x y p q = p
either-IsPartitioned false x y p q = q

pub event-IsPartitioned :
    (db : Queries) (s : DqsLine) (e : Event) → IsPartitioned s → IsPartitioned (after_event db s e)
unfolding after_event push_account_auth_dqs push_account_character_list_dqs drain_dqs_results
event-IsPartitioned db s (request_auth payload) p =
    let shard = route_auth_shard s.shard_count payload in
    drop-IsPartitioned (push_free s (auth_data payload) shard s.empty)
      (free-IsPartitioned s (auth_data payload) shard s.empty p refl)
event-IsPartitioned db s (request_character_list payload) p =
    let shard = route_character_list_shard s.shard_count payload in
    let held = character_list_data payload in
    let pushed = push_free s held shard s.empty in
    let kept = free-IsPartitioned s held shard s.empty p refl in
    either-IsPartitioned (is_empty s.empty) (count_drop pushed) pushed
      (drop-IsPartitioned pushed kept) kept
event-IsPartitioned db s (turn k) p = turn-IsPartitioned db s k p
event-IsPartitioned db s drain p = record { within = p.within; beyond = p.beyond }

fill_empty-count :
    (i n : ℕ) (free : List ℕ)
    → count i (fill_empty n free) ≡ (if ltb i n then 1 else 0) + count i free
unfolding fill_empty
fill_empty-count i zero free = ground arith
fill_empty-count i (suc n) free =
    ground (arith, fill_empty-count i n (n ∷ free), count-cons i n free)

pub idle_workers-count : (i n : ℕ) → count_workers i (idle_workers n) ≡ 0
unfolding idle_workers count_workers count_worker count_phase count
idle_workers-count i zero = refl
idle_workers-count i (suc n) = omega (arith, idle_workers-count i n)

pub init-IsPartitioned : (shards : ℕ) → IsPartitioned (init_dqs shards)
unfolding init_dqs
init-IsPartitioned shards = record {
  within = λ i h. ground (
    arith,
    fill_empty-count i k_max_dqs_slot_count [],
    count-nil i,
    idle_workers-count i (if shards == 0 then 1 else shards),
  );
  beyond = λ i h. ground (
    arith,
    fill_empty-count i k_max_dqs_slot_count [],
    count-nil i,
    idle_workers-count i (if shards == 0 then 1 else shards),
  );
}

after-IsPartitioned :
    (db : Queries) (s : DqsLine) (es : List Event)
    → IsPartitioned s
    → IsPartitioned (after_events db s es)
unfolding after_events
after-IsPartitioned db s [] p = p
after-IsPartitioned db s (e ∷ es) p =
    after-IsPartitioned db (after_event db s e) es (event-IsPartitioned db s e p)

-- From the start, with any number of shards, and whatever the order of the requests, the workers'
-- turns and the drains: each slot of the pool is free, or queued at one worker, or being run by one
-- worker, and in one of these places only; none is lost and none is there twice.
pub run-IsPartitioned :
    (db : Queries) (shards : ℕ) (es : List Event)
    → IsPartitioned (after_events db (init_dqs shards) es)
run-IsPartitioned db shards es =
    after-IsPartitioned db (init_dqs shards) es (init-IsPartitioned shards)

-- A job's shard is below the number of shards, and so has a worker and a connection.
pub routes_in_range :
    (n : ℕ) (a : AccountAuthRequest) (c : AccountCharacterListRequest)
    → 0 < n
    → (route_auth_shard n a < n) × (route_character_list_shard n c < n)
unfolding route_auth_shard route_character_list_shard
routes_in_range n a c h = (
  ground (arith, mod-lt (fnv_1a 1469598103934665603 a.login_id) h),
  ground (arith, mod-lt c.account_id h),
)

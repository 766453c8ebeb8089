-- ===== src/Account/Slots.antt =====
-- The slots and workers of the account service's database jobs
-- (src/services/account/runtime/account_line_runtime.cpp and src/db/shard/db_shard_manager.h): a job
-- takes a free slot, waits in its shard's queue, is run, and gives the slot back.
use new_server.Prelude.{
  ℕ, zero, suc, ◌+◌, ◌*◌, ◌/◌, ◌%◌, Bool, true, false, none, some, List, [], ◌∷◌, ◌++◌, length,
  is_empty, Map, put, ltb, leb, if◌then◌else◌, ◌==◌, u64_mod, nat_eq, bytes_eq,
}
use new_server.Account.Jobs.{
  success, AccountCharacterListResult, ResultCode, AccountAuthResult, AccountCharacterListRequest,
  AccountAuthRequest,
}

abbrev pub k_max_dqs_slot_count : ℕ
k_max_dqs_slot_count = 1024

-- What a slot's bytes hold, under its `process_code` and `qry_case`.
pub data SlotData : Type 0 where
  no_data : SlotData
  auth_data : AccountAuthRequest → SlotData
  character_list_data : AccountCharacterListRequest → SlotData

pub record DqsSlot : Type 0 where
  pub result : ResultCode
  pub in_use : Bool
  pub done : Bool
  pub held : SlotData

abbrev pub reset_slot : DqsSlot
reset_slot = record { result = success; in_use = false; done = false; held = no_data }

pub data DqsResult : Type 0 where
  auth_result : AccountAuthResult → DqsResult
  list_result : AccountCharacterListResult → DqsResult

-- Where a worker's loop stands: at the wait, before `run_one_`, before `recycle_`.
pub data WorkerPhase : Type 0 where
  waiting : WorkerPhase
  popped : ℕ → WorkerPhase
  ran : ℕ → WorkerPhase

pub record DbWorker : Type 0 where
  pub phase : WorkerPhase
  pub q : List ℕ

-- `dqs_slots_` never changes its length `slot_count` after the start. `workers` is `db_shards_`;
-- without them the pointer is null.
pub record DqsLine : Type 0 where
  pub slot_count : ℕ
  pub slots : Map ℕ DqsSlot
  pub empty : List ℕ
  pub push_count : ℕ
  pub drop_count : ℕ
  pub shard_count : ℕ
  pub db_worker_conns : ℕ
  pub workers : List DbWorker
  pub results : List DqsResult

-- `0, 1, …, n - 1` behind the slots of the list.
unfoldable pub fill_empty : ℕ → List ℕ → List ℕ
fill_empty zero free = free
fill_empty (suc n) free = fill_empty n (n ∷ free)

unfoldable pub idle_workers : ℕ → List DbWorker
idle_workers zero = []
idle_workers (suc n) = record { phase = waiting; q = [] } ∷ idle_workers n

-- The state after `InitDqs_` and `InitDbWorkers_` with a number of shards.
unfoldable pub init_dqs : ℕ → DqsLine
init_dqs shard_count = record {
  slot_count = k_max_dqs_slot_count;
  slots = λ i. if ltb i k_max_dqs_slot_count then some reset_slot else none;
  empty = fill_empty k_max_dqs_slot_count [];
  push_count = 0;
  drop_count = 0;
  shard_count = shard_count;
  db_worker_conns = shard_count;
  workers = idle_workers (if shard_count == 0 then 1 else shard_count);
  results = [];
}

-- Bitwise exclusive or of a number with a byte: the low eight bits, from the highest.
unfoldable pub xor_bits : ℕ → ℕ → ℕ → ℕ
xor_bits zero a b = 0
xor_bits (suc n) a b = xor_bits n (a / 2) (b / 2) * 2 + (if a % 2 == b % 2 then 0 else 1)

unfoldable pub xor_byte : ℕ → ℕ → ℕ
xor_byte h c = h / 256 * 256 + xor_bits 8 h c

-- FNV-1a on 64 bits.
unfoldable pub fnv_1a : ℕ → List ℕ → ℕ
fnv_1a h [] = h
fnv_1a h (c ∷ cs) = fnv_1a (xor_byte h c * 1099511628211 % u64_mod) cs

unfoldable pub route_auth_shard : ℕ → AccountAuthRequest → ℕ
route_auth_shard db_shard_count payload =
    if leb db_shard_count 1 then 0 else fnv_1a 1469598103934665603 payload.login_id % db_shard_count

unfoldable pub route_character_list_shard : ℕ → AccountCharacterListRequest → ℕ
route_character_list_shard db_shard_count payload =
    if leb db_shard_count 1 then 0 else payload.account_id % db_shard_count

unfoldable pub recycle_dqs_slot : DqsLine → ℕ → DqsLine
recycle_dqs_slot s slot_index = if leb s.slot_count slot_index then s else record s {
  slots = put s.slots slot_index reset_slot;
  empty = s.empty ++ (slot_index ∷ []);
}

-- `DbShardManager::push`: the worker at the index takes the slot at the end of its queue.
unfoldable pub push_at : List DbWorker → ℕ → ℕ → List DbWorker
push_at [] k slot_index = []
push_at (w ∷ ws) zero slot_index = record w { q = w.q ++ (slot_index ∷ []) } ∷ ws
push_at (w ∷ ws) (suc k) slot_index = w ∷ push_at ws k slot_index

-- `shard_id % shard_count_` of a manager that was made for at least one shard.
unfoldable pub shard_manager_push : List DbWorker → ℕ → ℕ → List DbWorker
shard_manager_push [] shard_id slot_index = []
shard_manager_push (w ∷ ws) shard_id slot_index =
    push_at (w ∷ ws) (shard_id % length (w ∷ ws)) slot_index

-- A free slot is at hand: it takes the payload and goes to its shard.
unfoldable pub push_dqs : DqsLine → SlotData → ℕ → ℕ → List ℕ → DqsLine × Bool
push_dqs s held shard idx rest =
    let taken = record s {
      slots =
          put s.slots idx (record { result = success; in_use = true; done = false; held = held });
      empty = rest;
    } in
    if is_empty s.workers then (recycle_dqs_slot taken idx, false) else (
      record taken {
        push_count = (s.push_count + 1) % u64_mod;
        workers = shard_manager_push s.workers shard idx;
      },
      true,
    )

unfoldable pub count_drop : DqsLine × Bool → DqsLine × Bool
count_drop (s, true) = (s, true)
count_drop (s, false) = (record s { drop_count = (s.drop_count + 1) % u64_mod }, false)

-- The front of the free slots is taken, if there is one.
unfoldable pub push_free : DqsLine → SlotData → ℕ → List ℕ → DqsLine × Bool
push_free s held shard [] = (s, false)
push_free s held shard (idx ∷ rest) = push_dqs s held shard idx rest

unfoldable pub push_account_auth_dqs : DqsLine → AccountAuthRequest → DqsLine × Bool
push_account_auth_dqs s payload =
    count_drop (push_free s (auth_data payload) (route_auth_shard s.shard_count payload) s.empty)

-- Here a null `db_shards_` is not counted as a drop.
unfoldable pub push_account_character_list_dqs :
    DqsLine → AccountCharacterListRequest → DqsLine × Bool
push_account_character_list_dqs s payload =
    let pushed =
      push_free s (character_list_data payload) (route_character_list_shard s.shard_count payload)
        s.empty in
    if is_empty s.empty then count_drop pushed else pushed

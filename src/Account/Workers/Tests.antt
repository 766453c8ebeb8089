-- ===== src/Account/Workers/Tests.antt =====
-- The workers on two jobs.
use new_server.Prelude.{◌+◌, ◌≡◌, refl, true, some, [], ◌∷◌, length, empty}
use new_server.Account.Workers.Balance.{answers_balance, accepted, drained}
use new_server.Account.Workers.Due.{jobs}
use new_server.Account.Workers.Turns.{worker_drains, turns_left, turns}
use new_server.Account.Workers.Runs.{run-IsPartitioned}
use new_server.Account.Jobs.{AccountAuthRequest, AccountCharacterListRequest}
use new_server.Account.Workers.{
  drain, turn, request_character_list, request_auth, threw_unknown, after_events, returned,
  worker_at, Queries,
}
use new_server.Account.Slots.{waiting, init_dqs, ran, DqsLine, DbWorker}
use new_server.Account.Workers.Partition.{IsPartitioned}

abbrev auth : AccountAuthRequest
auth = record {
  sid = 1;
  serial = 1;
  trace_id = 5;
  request_id = 6;
  login_id = 97 ∷ [];
  password = 98 ∷ [];
}

abbrev listing : AccountCharacterListRequest
listing = record { sid = 1; serial = 1; trace_id = 5; request_id = 7; account_id = 42 }

abbrev queries : Queries
queries = record {
  execute_auth = λ payload. returned (record { ok = true; account_id = 42; fail_reason = [] });
  execute_character_list = λ payload. threw_unknown;
  session_token = λ payload. 115 ∷ [];
}

run-IsPartitioned_example : IsPartitioned (
    after_events queries
      (init_dqs 2)
      (request_auth auth ∷ request_character_list listing ∷ turn 0 ∷ turn 0 ∷ turn 1 ∷ drain ∷ []))
run-IsPartitioned_example =
    run-IsPartitioned queries 2
      (request_auth auth ∷ request_character_list listing ∷ turn 0 ∷ turn 0 ∷ turn 1 ∷ drain ∷ [])

abbrev busy : DbWorker
busy = record { phase = ran 3; q = 4 ∷ 5 ∷ [] }

abbrev line : DqsLine
line = record {
  slot_count = 6;
  slots = empty;
  empty = [];
  push_count = 0;
  drop_count = 0;
  shard_count = 1;
  db_worker_conns = 1;
  workers = busy ∷ [];
  results = [];
}

there : worker_at line.workers 0 ≡ some busy
unfolding worker_at
there = refl

worker_drains_example :
    worker_at (after_events queries line (turns 0 (turns_left busy))).workers 0
    ≡ some (record { phase = waiting; q = [] })
worker_drains_example = worker_drains queries line 0 busy there

answers_balance_example :
    let es = request_auth auth ∷ request_character_list listing ∷ turn 0 ∷ turn 0 ∷ drain ∷ [] in
    jobs (after_events queries (init_dqs 2) es).workers
      + length (after_events queries (init_dqs 2) es).results
      + drained queries (init_dqs 2) es
    ≡ accepted queries (init_dqs 2) es
answers_balance_example =
    answers_balance queries 2
      (request_auth auth ∷ request_character_list listing ∷ turn 0 ∷ turn 0 ∷ drain ∷ [])

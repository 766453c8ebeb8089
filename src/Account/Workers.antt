-- ===== src/Account/Workers.antt =====
-- The worker threads over the slots (src/db/shard/db_shard_manager.h and
-- src/services/account/runtime/account_line_runtime.cpp): each turn of a worker's loop is three
-- events, which the events of other threads come between.
pub mod Counts
pub mod Partition
pub mod Answers
pub mod Balance
pub mod Due
pub mod Runs
pub mod Turns
pub mod Tests
use new_server.Prelude.{
  ℕ, zero, suc, Option, none, some, List, [], ◌∷◌, ◌++◌, put, leb, if◌then◌else◌, nat_eq, bytes_eq,
}
use new_server.Account.Jobs.{
  set_account_auth_db_error, set_account_character_list_db_error,
  apply_account_character_list_request_result, apply_account_auth_request_result,
  AccountCharacterListRequestResult, make_pending_account_auth_result,
  make_pending_account_character_list_result, AccountAuthResult, AccountAuthRequestResult,
  invalid_data, AccountCharacterListResult, AccountCharacterListRequest, AccountAuthRequest,
}
use new_server.Account.Slots.{
  no_data, route_character_list_shard, list_result, recycle_dqs_slot, character_list_data, ran,
  route_auth_shard, popped, auth_result, waiting, auth_data, push_account_character_list_dqs,
  SlotData, push_account_auth_dqs, DqsResult, DqsLine, DbWorker,
}

-- How a query went: it returned, or threw an exception with or without a text.
pub data Answer {ℓ} (R : Type ℓ) : Type ℓ where
  returned : R → Answer R
  threw : List ℕ → Answer R
  threw_unknown : Answer R

-- The texts `db_conn_not_ready` and `unknown_db_exception`.
abbrev pub db_conn_not_ready : List ℕ
db_conn_not_ready =
    100 ∷ 98 ∷ 95 ∷ 99 ∷ 111 ∷ 110 ∷ 110 ∷ 95 ∷ 110 ∷ 111 ∷ 116 ∷ 95 ∷ 114 ∷ 101 ∷ 97 ∷ 100 ∷ 121
    ∷ []

abbrev pub unknown_db_exception : List ℕ
unknown_db_exception =
    117 ∷ 110 ∷ 107 ∷ 110 ∷ 111 ∷ 119 ∷ 110 ∷ 95 ∷ 100 ∷ 98 ∷ 95 ∷ 101 ∷ 120 ∷ 99 ∷ 101 ∷ 112 ∷ 116
    ∷ 105 ∷ 111 ∷ 110 ∷ []

unfoldable pub post_dqs_result : DqsLine → DqsResult → DqsLine
post_dqs_result s r = record s { results = s.results ++ (r ∷ []) }

unfoldable pub worker_at : List DbWorker → ℕ → Option DbWorker
worker_at [] k = none
worker_at (w ∷ ws) zero = some w
worker_at (w ∷ ws) (suc k) = worker_at ws k

unfoldable pub set_worker : List DbWorker → ℕ → DbWorker → List DbWorker
set_worker [] k x = []
set_worker (w ∷ ws) zero x = x ∷ ws
set_worker (w ∷ ws) (suc k) x = w ∷ set_worker ws k x

-- The queries and the token generator are not of this file: a run takes the answers that they give.
pub record Queries : Type 0 where
  pub execute_auth : AccountAuthRequest → Answer AccountAuthRequestResult
  pub execute_character_list :
      AccountCharacterListRequest → Answer AccountCharacterListRequestResult
  pub session_token : AccountAuthRequest → List ℕ

module _ (db : Queries) where
  unfoldable pub run_auth : AccountAuthRequest → AccountAuthResult
  run_auth payload =
      let rr = make_pending_account_auth_result payload in
      elim (db.execute_auth payload) [
        | returned r ↦ apply_account_auth_request_result r rr (db.session_token payload)
        | threw reason ↦ set_account_auth_db_error rr reason
        | threw_unknown ↦ set_account_auth_db_error rr unknown_db_exception
      ]

  unfoldable pub run_character_list : AccountCharacterListRequest → AccountCharacterListResult
  run_character_list payload =
      let rr = make_pending_account_character_list_result payload in
      elim (db.execute_character_list payload) [
        | returned r ↦ apply_account_character_list_request_result r rr
        | threw reason ↦ set_account_character_list_db_error rr reason
        | threw_unknown ↦ set_account_character_list_db_error rr unknown_db_exception
      ]

  -- The result that the job of a slot posts.
  unfoldable pub result_of : DqsLine → SlotData → Option DqsResult
  result_of s no_data = none
  result_of s (auth_data payload) = some (
      auth_result (
        if leb s.db_worker_conns (route_auth_shard s.shard_count payload)
        then set_account_auth_db_error (make_pending_account_auth_result payload) db_conn_not_ready
        else run_auth payload))
  result_of s (character_list_data payload) = some (
      list_result (
        if leb s.db_worker_conns (route_character_list_shard s.shard_count payload)
        then set_account_character_list_db_error
            (make_pending_account_character_list_result payload) db_conn_not_ready
        else run_character_list payload))

  -- `OnDqsRunOne_`. A slot without data has the process code of another service.
  unfoldable pub on_dqs_run_one : DqsLine → ℕ → DqsLine
  on_dqs_run_one s slot_index = elim (s.slots slot_index) [
    | none ↦ s
    | some slot ↦ elim (result_of s slot.held) [
      | none ↦ record s { slots = put s.slots slot_index (record slot { result = invalid_data }) }
      | some r ↦ post_dqs_result s r
    ]
  ]

  -- One event of worker `k`: the pop, the run or the recycling.
  unfoldable pub worker_event : DqsLine → ℕ → DbWorker → DqsLine
  worker_event s k w = elim w.phase [
    | waiting ↦ elim w.q [
      | [] ↦ s
      | idx ∷ rest ↦ record s {
        workers = set_worker s.workers k (record { phase = popped idx; q = rest });
      }
    ]
    | popped idx ↦ record (on_dqs_run_one s idx) {
      workers = set_worker s.workers k (record w { phase = ran idx });
    }
    | ran idx ↦ record (recycle_dqs_slot s idx) {
      workers = set_worker s.workers k (record w { phase = waiting });
    }
  ]

  unfoldable pub worker_step : DqsLine → ℕ → DqsLine
  worker_step s k = elim (worker_at s.workers k) [ none ↦ s | some w ↦ worker_event s k w ]

-- The events of the service's threads, in the order in which they take the lock.
pub data Event : Type 0 where
  request_auth : AccountAuthRequest → Event
  request_character_list : AccountCharacterListRequest → Event
  turn : ℕ → Event
  drain : Event

-- `DrainDqsResults_` takes the results away; the handlers of a result do not touch this state.
unfoldable pub drain_dqs_results : DqsLine → DqsLine × List DqsResult
drain_dqs_results s = (record s { results = [] }, s.results)

unfoldable pub after_event : Queries → DqsLine → Event → DqsLine
after_event db s (request_auth payload) = (push_account_auth_dqs s payload).0
after_event db s (request_character_list payload) = (push_account_character_list_dqs s payload).0
after_event db s (turn k) = worker_step db s k
after_event db s drain = (drain_dqs_results s).0

unfoldable pub after_events : Queries → DqsLine → List Event → DqsLine
after_events db s [] = s
after_events db s (e ∷ es) = after_events db (after_event db s e) es

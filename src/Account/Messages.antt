-- ===== src/Account/Messages.antt =====
-- What the account service sends on the login and world lines
-- (src/services/account/handler/account_login_handler.cpp and account_world_handler.cpp).
use new_server.Prelude.{ℕ, Bool, Option, List}
use new_server.Account.Types.{
  CharacterSummary, ConsumePendingWorldAuthTicketResultKind, ConfiguredWorldEntry,
}

pub record WorldSummary : Type 0 where
  pub world_id : ℕ
  pub channel_id : ℕ
  pub active_zone_count : ℕ
  pub load_score : ℕ
  pub public_port : ℕ
  pub flags : ℕ
  pub server_name : List ℕ
  pub public_host : List ℕ

-- The literals given as `fail_reason`; `remote` is a text that another service or the database gave.
pub data FailReason : Type 0 where
  no_fail_reason : FailReason
  empty_login_id : FailReason
  empty_password : FailReason
  db_queue_full : FailReason
  invalid_login_session : FailReason
  world_not_ready : FailReason
  world_not_found : FailReason
  world_not_selected : FailReason
  world_selection_mismatch : FailReason
  world_route_not_ready : FailReason
  world_route_send_failed : FailReason
  character_not_found : FailReason
  remote : List ℕ → FailReason

-- Whom an answer goes to, and the request that it answers.
pub record Caller : Type 0 where
  pub sid : ℕ
  pub serial : ℕ
  pub trace_id : ℕ
  pub request_id : ℕ

-- The fields are the arguments that are not constants at the calls; the `Bool` is `ok`.
pub data Message : Type 0 where
  login_register_ack : (sid serial : ℕ) → Message
  world_register_ack : (sid serial : ℕ) → Option ConfiguredWorldEntry → Message
  ticket_consume_response :
      (sid serial trace_id request_id : ℕ)
      → ConsumePendingWorldAuthTicketResultKind
      → (account_id char_id : ℕ) → (login_session world_token : List ℕ) → Message
  world_enter_success_notify :
      (sid serial trace_id account_id char_id : ℕ) → (login_session world_token : List ℕ) → Message
  close_world_session : (sid serial : ℕ) → Message
  account_auth_result :
      Caller → Bool → (account_id : ℕ) → (login_session : List ℕ) → FailReason → Message
  world_list_result :
      Caller → Bool → (account_id count : ℕ) → List WorldSummary → FailReason → Message
  world_select_result :
      Caller
      → Bool
      → (account_id world_id : ℕ) → (login_session world_host : List ℕ) → FailReason
      → (world_port : ℕ) → Message
  world_character_list_request :
      Caller → (account_id world_id : ℕ) → (login_session : List ℕ) → Message
  character_list_result :
      Caller → Bool → (account_id count : ℕ) → List CharacterSummary → FailReason → Message
  character_select_result :
      Caller
      → Bool
      → (account_id char_id : ℕ) → (login_session world_token world_host : List ℕ) → FailReason
      → (world_port : ℕ) → Message

-- ===== src/Account/Types.antt =====
-- The data of the account service (src/services/account/runtime/account_line_runtime.h): registered
-- world routes, tickets for entering a world, and login sessions. A clock reading is a number of
-- nanoseconds of the steady clock.
use new_server.Prelude.{
  ℕ, zero, suc, ◌*◌, Bool, List, [], ◌∷◌, if◌then◌else◌, ◌==◌, nat_eq, bytes_eq,
}

-- The timeouts of src/shared/constants.h, which a debug and a release build set differently.
pub record Timeouts : Type 0 where
  pub account_world_expire : ℕ
  pub pending_world_upserts_expire : ℕ
  pub consumed_world_enters_awaiting_notify_expire : ℕ
  pub world_route_heartbeat_timeout : ℕ

abbrev seconds : ℕ → ℕ
seconds n = n * 1000000000

abbrev pub debug_timeouts : Timeouts
debug_timeouts = record {
  account_world_expire = seconds 600;
  pending_world_upserts_expire = seconds 600;
  consumed_world_enters_awaiting_notify_expire = seconds 600;
  world_route_heartbeat_timeout = seconds 600;
}

abbrev pub release_timeouts : Timeouts
release_timeouts = record {
  account_world_expire = seconds 30;
  pending_world_upserts_expire = seconds 30;
  consumed_world_enters_awaiting_notify_expire = seconds 30;
  world_route_heartbeat_timeout = seconds 10;
}

pub record PendingWorldTicketUpsert : Type 0 where
  pub trace_id : ℕ
  pub request_id : ℕ
  pub login_sid : ℕ
  pub login_serial : ℕ
  pub target_world_id : ℕ
  pub account_id : ℕ
  pub char_id : ℕ
  pub login_session : List ℕ
  pub world_token : List ℕ
  pub world_host : List ℕ
  pub world_port : ℕ
  pub issued_at : ℕ

pub record ConfiguredWorldEntry : Type 0 where
  pub name : List ℕ
  pub db_dns : List ℕ
  pub db_id : List ℕ
  pub db_pw : List ℕ
  pub world_id : ℕ

pub record RegisteredWorldEndpoint : Type 0 where
  pub sid : ℕ
  pub serial : ℕ
  pub world_id : ℕ
  pub active_zone_count : ℕ
  pub load_score : ℕ
  pub flags : ℕ
  pub server_name : List ℕ
  pub public_host : List ℕ
  pub public_port : ℕ
  pub ready : Bool
  pub db_name : List ℕ
  pub db_user : List ℕ
  pub db_password : List ℕ
  pub registered_at : ℕ
  pub last_heartbeat_at : ℕ

pub record ConsumedWorldTicketAwaitingNotify : Type 0 where
  pub trace_id : ℕ
  pub request_id : ℕ
  pub login_sid : ℕ
  pub login_serial : ℕ
  pub target_world_id : ℕ
  pub account_id : ℕ
  pub char_id : ℕ
  pub login_session : List ℕ
  pub world_token : List ℕ
  pub world_host : List ℕ
  pub world_port : ℕ
  pub consumed_at : ℕ

-- The value that `ConsumedWorldTicketAwaitingNotify consumed{}` has before a ticket is found.
abbrev pub no_consumed : ConsumedWorldTicketAwaitingNotify
no_consumed = record {
  trace_id = 0;
  request_id = 0;
  login_sid = 0;
  login_serial = 0;
  target_world_id = 0;
  account_id = 0;
  char_id = 0;
  login_session = [];
  world_token = [];
  world_host = [];
  world_port = 0;
  consumed_at = 0;
}

pub record CharacterSummary : Type 0 where
  pub char_id : ℕ
  pub char_name : List ℕ
  pub level : ℕ
  pub job : ℕ
  pub appearance_code : ℕ
  pub last_login_at_epoch_sec : ℕ

pub record LoginCharacterSession : Type 0 where
  pub trace_id : ℕ
  pub login_sid : ℕ
  pub login_serial : ℕ
  pub account_id : ℕ
  pub selected_char_id : ℕ
  pub selected_world_id : ℕ
  pub selected_world_host : List ℕ
  pub selected_world_port : ℕ
  pub login_session : List ℕ
  pub cached_characters : List CharacterSummary
  pub updated_at : ℕ

pub data ConsumePendingWorldAuthTicketResultKind : Type 0 where
  ok : ConsumePendingWorldAuthTicketResultKind
  token_not_found : ConsumePendingWorldAuthTicketResultKind
  expired : ConsumePendingWorldAuthTicketResultKind
  replay_detected : ConsumePendingWorldAuthTicketResultKind
  account_mismatch : ConsumePendingWorldAuthTicketResultKind
  char_mismatch : ConsumePendingWorldAuthTicketResultKind
  login_session_mismatch : ConsumePendingWorldAuthTicketResultKind
  world_server_mismatch : ConsumePendingWorldAuthTicketResultKind

abbrev pub k_character_list_max_count : ℕ
k_character_list_max_count = 8

abbrev pub k_character_name_max_len : ℕ
k_character_name_max_len = 20

-- `std::snprintf(…, "%s", …)` into an array of `cap + 1` bytes: up to the first NUL, cut at `cap`.
unfoldable pub c_string : ℕ → List ℕ → List ℕ
c_string zero bytes = []
c_string (suc cap) [] = []
c_string (suc cap) (b ∷ bytes) = if b == 0 then [] else b ∷ c_string cap bytes

-- ===== src/Session/History.antt =====
-- Every sequence of operations on the session tables, from the empty ones.
pub mod Kept
pub mod Token
pub mod Single
use new_server.Prelude.{ℕ, ◌<◌, ◌≡◌, none, List, empty, u32_mod}
use new_server.Session.Types.{WorldSessionCloseReason}
use new_server.Session.Tables.{WorldSessions}
use new_server.Session.Bind.{bind_authenticated_world_session}
use new_server.Session.Unbind.{unbind_authenticated_world_session_by_sid}
use new_server.Session.Stage.{
  try_begin_enter_world_session, cancel_pending_enter_world_session,
  promote_enter_world_session_to_in_world, mark_enter_world_session_closing,
  mark_world_session_close_reason,
}
use new_server.Session.Pending.{abort_stage}
use new_server.Session.Lifecycle.{forget_stage}
use new_server.Session.Reconnect.{reconnect_sessions, get_or_create_reconnect_token_for_session}

abbrev pub initial_sessions : WorldSessions
initial_sessions = record {
  authed_sessions_by_sid = empty;
  authed_session_key_by_char_id = empty;
  authed_session_key_by_account_id = empty;
  reconnect_session_key_by_token = empty;
  session_close_reason_by_session_key = empty;
  world_enter_stage_by_session_key = empty;
  pending_enter_session_key_by_char_id = empty;
}

-- One critical section on the tables, with sids and serials of 32 bits. A reconnect comes from a
-- socket that has no session yet.
pub data Step (w : WorldSessions) : WorldSessions → Type 0 where
  bind :
      (account_id char_id sid serial : ℕ) (token : List ℕ)
      → sid < u32_mod
      → serial < u32_mod
      → Step w (bind_authenticated_world_session w account_id char_id sid serial token).0
  unbind : (sid serial : ℕ) → Step w (unbind_authenticated_world_session_by_sid w sid serial).0
  begin :
      (sid serial account_id char_id : ℕ)
      → Step w (try_begin_enter_world_session w sid serial account_id char_id).0
  cancel :
      (sid serial char_id : ℕ) → Step w (cancel_pending_enter_world_session w sid serial char_id)
  promote :
      (sid serial char_id : ℕ)
      → Step w (promote_enter_world_session_to_in_world w sid serial char_id).0
  mark_closing : (sid serial : ℕ) → Step w (mark_enter_world_session_closing w sid serial)
  mark_reason :
      (sid serial : ℕ) (reason : WorldSessionCloseReason)
      → Step w (mark_world_session_close_reason w sid serial reason)
  abort : (sid serial : ℕ) → Step w (abort_stage w sid serial)
  forget : (sid serial : ℕ) → Step w (forget_stage w sid serial)
  get_token :
      (sid serial : ℕ) (fresh_token : List ℕ)
      → Step w (get_or_create_reconnect_token_for_session w sid serial fresh_token).0
  reconnect :
      (account_id char_id : ℕ) (token : List ℕ) (sid serial : ℕ)
      → sid < u32_mod
      → serial < u32_mod
      → w.authed_sessions_by_sid sid ≡ none
      → Step w (reconnect_sessions w account_id char_id token sid serial).0

pub data Reachable : WorldSessions → Type 0 where
  start : Reachable initial_sessions
  after : (w w' : WorldSessions) → Reachable w → Step w w' → Reachable w'

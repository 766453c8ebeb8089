-- ===== src/Session/Tables.antt =====
-- The tables of authenticated sessions (src/services/world/runtime/world_runtime.h, guarded there by
-- `world_session_mtx_`), the erasure of a session from them and the lookups in them. Each operation
-- on the tables is one critical section of the source.
pub mod Consistent
pub mod Erase
pub mod Same
use new_server.Prelude.{
  ℕ, Option, none, some, List, [], Map, erase, if◌then◌else◌, ◌==◌, nat_eq, bytes_eq,
}
use new_server.Session.Key.{
  is_valid_session_key, pack_session_key, unpack_session_sid, unpack_session_serial,
  matches_packed_session_key,
}
use new_server.Session.Types.{
  WorldAuthedSession, no_session, WorldEnterStage, WorldSessionCloseReason, DuplicateSessionCause,
  BindAuthedWorldSessionResult, BindAuthedWorldSessionResultKind, UnbindAuthedWorldSessionResult,
  UnbindAuthedWorldSessionResultKind,
}

pub record WorldSessions : Type 0 where
  pub authed_sessions_by_sid : Map ℕ WorldAuthedSession
  pub authed_session_key_by_char_id : Map ℕ ℕ
  pub authed_session_key_by_account_id : Map ℕ ℕ
  pub reconnect_session_key_by_token : Map (List ℕ) ℕ
  pub session_close_reason_by_session_key : Map ℕ WorldSessionCloseReason
  pub world_enter_stage_by_session_key : Map ℕ WorldEnterStage
  pub pending_enter_session_key_by_char_id : Map ℕ ℕ

-- Erases the reverse index of an id, if there is an id and the index holds this session.
unfoldable pub erase_index : Map ℕ ℕ → ℕ → ℕ → ℕ → Map ℕ ℕ
erase_index m id sid serial = if id == 0 then m else elim (m id) [
  | none ↦ m
  | some key ↦ if matches_packed_session_key key sid serial then erase m id else m
]

-- The same for a reconnect token, where no token is the empty one.
unfoldable pub erase_token : Map (List ℕ) ℕ → List ℕ → ℕ → ℕ → Map (List ℕ) ℕ
erase_token m token sid serial = if token == [] then m else elim (m token) [
  | none ↦ m
  | some key ↦ if matches_packed_session_key key sid serial then erase m token else m
]

-- The body of the lambda `erase_authed_sid_nolock`, where the sid was found.
unfoldable pub erase_victim : WorldSessions → ℕ → WorldAuthedSession → WorldSessions
erase_victim w victim_sid victim = record w {
  authed_sessions_by_sid = erase w.authed_sessions_by_sid victim_sid;
  authed_session_key_by_char_id =
      erase_index w.authed_session_key_by_char_id victim.char_id victim.sid victim.serial;
  authed_session_key_by_account_id =
      erase_index w.authed_session_key_by_account_id victim.account_id victim.sid victim.serial;
  reconnect_session_key_by_token =
      erase_token w.reconnect_session_key_by_token victim.reconnect_token victim.sid victim.serial;
  session_close_reason_by_session_key =
      erase w.session_close_reason_by_session_key (pack_session_key victim.sid victim.serial);
}

-- `erase_authed_sid_nolock`: the victim's indexes go where they still name it.
unfoldable pub erase_authed_sid : WorldSessions → ℕ → WorldSessions
erase_authed_sid w victim_sid = elim (w.authed_sessions_by_sid victim_sid) [
  | none ↦ w
  | some victim ↦ erase_victim w victim_sid victim
]

-- The session that a reverse index names, if it is there under the same serial.
unfoldable pub find_by_key : WorldSessions → Option ℕ → Option WorldAuthedSession
find_by_key w none = none
find_by_key w (some key) = elim (w.authed_sessions_by_sid (unpack_session_sid key)) [
  | none ↦ none
  | some session ↦ if session.serial == unpack_session_serial key then some session else none
]

-- The result structure holds a session whose sid is 0 where nothing was found.
abbrev pub or_no_session : Option WorldAuthedSession → WorldAuthedSession
or_no_session none = no_session
or_no_session (some session) = session

unfoldable pub find_authenticated_world_session_by_sid :
    WorldSessions → ℕ → Option WorldAuthedSession
find_authenticated_world_session_by_sid w sid =
    if sid == 0 then none else w.authed_sessions_by_sid sid

unfoldable pub find_authenticated_world_session_by_char_id :
    WorldSessions → ℕ → Option WorldAuthedSession
find_authenticated_world_session_by_char_id w char_id =
    if char_id == 0 then none else find_by_key w (w.authed_session_key_by_char_id char_id)

unfoldable pub find_char_id_by_session : WorldSessions → ℕ → ℕ
find_char_id_by_session w sid =
    if sid == 0
    then 0
    else elim (w.authed_sessions_by_sid sid) [ none ↦ 0 | some session ↦ session.char_id ]

unfoldable pub try_get_authenticated_world_session :
    WorldSessions → ℕ → ℕ → Option WorldAuthedSession
try_get_authenticated_world_session w sid serial =
    if is_valid_session_key sid serial
    then (elim (find_authenticated_world_session_by_sid w sid) [
      | none ↦ none
      | some current ↦ if current.serial == serial then some current else none
    ])
    else none

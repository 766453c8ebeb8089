-- ===== src/Session/Reconnect.antt =====
-- The reconnect of src/services/world/runtime/world_runtime_session.cpp: a token names the session that a
-- new socket takes over.
pub mod Takeover
pub mod Overwrite
pub mod Tests
use new_server.Prelude.{
  ℕ, Bool, true, false, ◌||◌, not, Option, none, some, List, [], put, erase, erase_if,
  if◌then◌else◌, ◌==◌, nat_eq, bytes_eq,
}
use new_server.Prelude.Int.{ℤ, pos}
use new_server.Player.{PlayerActor}
use new_server.Player.Moves.{bind_session, get_position, get_zone_id, get_map_id}
use new_server.Session.Key.{
  is_valid_session_key, pack_session_key, unpack_session_sid, unpack_session_serial,
}
use new_server.Session.Types.{WorldAuthedSession, no_session, WorldEnterStage}
use new_server.Session.Tables.{WorldSessions, find_by_key}
use new_server.Session.Bind.{asked_session}
use new_server.Session.Close.{cancel_delayed_world_close}
use new_server.Session.Lifecycle.{WorldRuntime}

-- `GetOrCreateReconnectTokenForSession`; `fresh_token` is what `GenerateReconnectToken_` would return.
unfoldable pub get_or_create_reconnect_token_for_session :
    WorldSessions → ℕ → ℕ → List ℕ → WorldSessions × List ℕ
get_or_create_reconnect_token_for_session w sid serial fresh_token =
    if is_valid_session_key sid serial
    then (elim (w.authed_sessions_by_sid sid) [
      | none ↦ (w, [])
      | some session ↦
          let token =
            if session.reconnect_token == [] then fresh_token else session.reconnect_token in
          if session.serial == serial
          then (
            record w {
              authed_sessions_by_sid =
                  put w.authed_sessions_by_sid sid (record session { reconnect_token = token });
              reconnect_session_key_by_token =
                  put w.reconnect_session_key_by_token token (pack_session_key sid serial);
            },
            token,
          )
          else (w, [])
    ])
    else (w, [])

pub data ReconnectWorldResultCode : Type 0 where
  success token_not_found account_mismatch char_mismatch session_expired internal_error :
      ReconnectWorldResultCode

pub record ReconnectWorldSessionResult : Type 0 where
  pub code : ReconnectWorldResultCode
  pub current_session : WorldAuthedSession
  pub previous_session : WorldAuthedSession
  pub zone_id : ℕ
  pub map_id : ℕ
  pub instance_id : ℕ
  pub x : ℤ
  pub y : ℤ
  pub reconnect_token : List ℕ

-- A result before the position is known.
abbrev pub placeless :
    ReconnectWorldResultCode
    → WorldAuthedSession
    → WorldAuthedSession
    → List ℕ
    → ReconnectWorldSessionResult
placeless code current previous token = record {
  code = code;
  current_session = current;
  previous_session = previous;
  zone_id = 0;
  map_id = 0;
  instance_id = 0;
  x = pos 0;
  y = pos 0;
  reconnect_token = token;
}

-- The writes that move the previous session to the new sid and serial.
unfoldable pub move_session : WorldSessions → WorldAuthedSession → ℕ → ℕ → WorldSessions
move_session w previous sid serial =
    let replacement : WorldAuthedSession = record previous { sid = sid; serial = serial } in
    let old_key = pack_session_key previous.sid previous.serial in
    let new_key = pack_session_key sid serial in
    record w {
      authed_sessions_by_sid = put (erase w.authed_sessions_by_sid previous.sid) sid replacement;
      authed_session_key_by_char_id = put w.authed_session_key_by_char_id previous.char_id new_key;
      authed_session_key_by_account_id =
          put w.authed_session_key_by_account_id previous.account_id new_key;
      reconnect_session_key_by_token =
          put w.reconnect_session_key_by_token previous.reconnect_token new_key;
      session_close_reason_by_session_key =
          erase (erase w.session_close_reason_by_session_key old_key) new_key;
      world_enter_stage_by_session_key =
          put (erase w.world_enter_stage_by_session_key old_key) new_key WorldEnterStage.in_world;
      pending_enter_session_key_by_char_id =
          erase_if (λ k. k == old_key) w.pending_enter_session_key_by_char_id;
    }

-- The checks on the session that the token names: the code of the first that fails.
unfoldable pub reconnect_mismatch :
    WorldAuthedSession → ℕ → ℕ → List ℕ → Option ReconnectWorldResultCode
reconnect_mismatch previous account_id char_id token =
    if not (previous.account_id == account_id)
    then some ReconnectWorldResultCode.account_mismatch
    else if not (previous.char_id == char_id)
    then some ReconnectWorldResultCode.char_mismatch
    else if not (previous.reconnect_token == token)
    then some ReconnectWorldResultCode.token_not_found
    else none

-- The critical section, from the key that the token names.
unfoldable pub reconnect_key :
    WorldSessions → WorldAuthedSession → List ℕ → ℕ → WorldSessions × ReconnectWorldSessionResult
reconnect_key w asked token key = elim (find_by_key w (some key)) [
  | none ↦ (
    record w { reconnect_session_key_by_token = erase w.reconnect_session_key_by_token token },
    placeless ReconnectWorldResultCode.session_expired asked no_session [],
  )
  | some found ↦
      let previous : WorldAuthedSession = record found {
        sid = unpack_session_sid key;
        serial = unpack_session_serial key;
      } in
      elim (reconnect_mismatch found asked.account_id asked.char_id token) [
        | some code ↦ (w, placeless code asked found [])
        | none ↦ (
          move_session w previous asked.sid asked.serial,
          placeless ReconnectWorldResultCode.success
              (record found { sid = asked.sid; serial = asked.serial }) found found.reconnect_token,
        )
      ]
]

unfoldable pub reconnect_sessions :
    WorldSessions → ℕ → ℕ → List ℕ → ℕ → ℕ → WorldSessions × ReconnectWorldSessionResult
reconnect_sessions w account_id char_id token sid serial =
    let asked = asked_session account_id char_id sid serial in
    if not (is_valid_session_key sid serial) || account_id == 0 || char_id == 0 || token == []
    then (w, placeless ReconnectWorldResultCode.internal_error asked no_session [])
    else elim (w.reconnect_session_key_by_token token) [
      | none ↦ (w, placeless ReconnectWorldResultCode.token_not_found asked no_session [])
      | some key ↦ reconnect_key w asked token key
    ]

unfoldable pub is_success : ReconnectWorldResultCode → Bool
is_success ReconnectWorldResultCode.success = true
is_success _ = false

-- `TryReconnectWorldSession` whole, with the actor of the char.
unfoldable pub try_reconnect_world_session :
    WorldRuntime
    → PlayerActor
    → ℕ
    → ℕ
    → List ℕ
    → ℕ
    → ℕ
    → WorldRuntime × PlayerActor × ReconnectWorldSessionResult
try_reconnect_world_session rt actor account_id char_id token sid serial =
    let r = reconnect_sessions rt.sessions account_id char_id token sid serial in
    let moved : WorldRuntime = record rt { sessions = r.0 } in
    let bound = bind_session actor sid serial in
    if is_success r.1.code
    then (
      record moved {
        closes =
            cancel_delayed_world_close rt.closes r.1.previous_session.sid
              r.1.previous_session.serial;
      },
      bound,
      record (r.1) {
        zone_id = get_zone_id bound;
        map_id = get_map_id bound;
        instance_id = bound.map_instance_id;
        x = (get_position bound).x;
        y = (get_position bound).y;
      },
    )
    else (moved, actor, r.1)

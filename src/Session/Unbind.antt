-- ===== src/Session/Unbind.antt =====
-- `WorldRuntime::UnbindAuthenticatedWorldSessionBySid`.
pub mod Removal
use new_server.Prelude.{ℕ, none, some, erase, erase_if, if◌then◌else◌, ◌==◌, nat_eq}
use new_server.Session.Key.{is_valid_session_key, pack_session_key}
use new_server.Session.Types.{
  WorldAuthedSession, no_session, UnbindAuthedWorldSessionResult,
  UnbindAuthedWorldSessionResultKind,
}
use new_server.Session.Tables.{WorldSessions, erase_index, erase_token}

-- The critical section of `UnbindAuthenticatedWorldSessionBySid`, where the session is the one asked.
unfoldable pub remove_session : WorldSessions → WorldAuthedSession → ℕ → ℕ → WorldSessions
remove_session w session sid serial =
    let key = pack_session_key sid serial in
    record w {
      authed_sessions_by_sid = erase w.authed_sessions_by_sid sid;
      authed_session_key_by_char_id =
          erase_index w.authed_session_key_by_char_id session.char_id sid serial;
      authed_session_key_by_account_id =
          erase_index w.authed_session_key_by_account_id session.account_id sid serial;
      reconnect_session_key_by_token =
          erase_token w.reconnect_session_key_by_token session.reconnect_token sid serial;
      session_close_reason_by_session_key = erase w.session_close_reason_by_session_key key;
      world_enter_stage_by_session_key = erase w.world_enter_stage_by_session_key key;
      pending_enter_session_key_by_char_id =
          erase_if (λ k. k == key) w.pending_enter_session_key_by_char_id;
    }

unfoldable pub unbind_authenticated_world_session_by_sid :
    WorldSessions → ℕ → ℕ → WorldSessions × UnbindAuthedWorldSessionResult
unbind_authenticated_world_session_by_sid w sid serial =
    if is_valid_session_key sid serial
    then (elim (w.authed_sessions_by_sid sid) [
      | none ↦ (
        w,
        record { kind = UnbindAuthedWorldSessionResultKind.not_found_by_sid; session = no_session },
      )
      | some session ↦
          if session.serial == serial
          then (
            remove_session w session sid serial,
            record { kind = UnbindAuthedWorldSessionResultKind.removed; session = session },
          )
          else (
            w,
            record { kind = UnbindAuthedWorldSessionResultKind.serial_mismatch; session = session },
          )
    ])
    else (
      w,
      record { kind = UnbindAuthedWorldSessionResultKind.invalid_input; session = no_session },
    )

-- ===== src/Session/Reconnect/Tests.antt =====
-- Concrete reconnects.
use new_server.Prelude.{ℕ, ◌≡◌, refl, inl, none, some, [], ◌∷◌, arith}
use new_server.Session.Types.{WorldAuthedSession}
use new_server.Session.Key.{
  pack_session_key, unpack_session_sid, unpack_session_serial, matches_packed_session_key,
  is_valid_session_key,
}
use new_server.Session.Tables.{WorldSessions, erase_authed_sid, erase_victim, find_by_key}
use new_server.Session.Tables.Consistent.{IsConsistent}
use new_server.Session.Bind.{
  bind_authenticated_world_session, replace_sessions, insert_session, evict_old, same_session,
  bound_token,
}
use new_server.Session.Bind.Authority.{bind-Bound}
use new_server.Session.History.{Reachable, start, after, bind}
use new_server.Session.History.Single.{single_active_session}
use new_server.Session.Tests.{no_sessions, one_session, one_session-Bound, two_six-IsKey}
use new_server.Session.Reconnect.{
  reconnect_sessions, reconnect_key, reconnect_mismatch, ReconnectWorldResultCode,
}
use new_server.Session.Reconnect.Takeover.{TakenOver, reconnect-TakenOver}
use new_server.Session.Reconnect.Overwrite.{Overwritten, reconnect-Overwritten}

fresh_socket : one_session.authed_sessions_by_sid 2 ≡ none
unfolding bind_authenticated_world_session replace_sessions insert_session evict_old
    erase_authed_sid erase_victim same_session find_by_key bound_token pack_session_key
    unpack_session_sid unpack_session_serial matches_packed_session_key
fresh_socket = refl

token_found :
    (reconnect_sessions one_session 70 71 (1 ∷ []) 2 6).1.code ≡ ReconnectWorldResultCode.success
unfolding bind_authenticated_world_session replace_sessions insert_session evict_old
    erase_authed_sid erase_victim same_session find_by_key bound_token pack_session_key
    unpack_session_sid unpack_session_serial matches_packed_session_key reconnect_sessions
    reconnect_key reconnect_mismatch is_valid_session_key
token_found = refl

reconnect-TakenOver_example :
    TakenOver one_session (reconnect_sessions one_session 70 71 (1 ∷ []) 2 6).0 70 71 2 6
reconnect-TakenOver_example =
    reconnect-TakenOver one_session 70 71 (1 ∷ []) 2 6 one_session-Bound.consistent two_six-IsKey
      fresh_socket token_found

-- Account 80 with char 81 is bound on the socket of sid 2.
abbrev two_sessions : WorldSessions
two_sessions = (bind_authenticated_world_session one_session 80 81 2 6 (2 ∷ [])).0

two_sessions-IsConsistent : IsConsistent two_sessions
two_sessions-IsConsistent =
    (bind-Bound one_session 80 81 2 6 (2 ∷ []) one_session-Bound.consistent two_six-IsKey
      (omega arith) (omega arith)).consistent

abbrev first_session : WorldAuthedSession
first_session = record {
  account_id = 70;
  char_id = 71;
  sid = 1;
  serial = 5;
  reconnect_token = 1 ∷ [];
}

abbrev second_session : WorldAuthedSession
second_session = record {
  account_id = 80;
  char_id = 81;
  sid = 2;
  serial = 6;
  reconnect_token = 2 ∷ [];
}

first_bound : two_sessions.authed_sessions_by_sid 1 ≡ some first_session
unfolding bind_authenticated_world_session replace_sessions insert_session evict_old
    erase_authed_sid erase_victim same_session find_by_key bound_token pack_session_key
    unpack_session_sid unpack_session_serial matches_packed_session_key
first_bound = refl

second_bound : two_sessions.authed_sessions_by_sid 2 ≡ some second_session
unfolding bind_authenticated_world_session replace_sessions insert_session evict_old
    erase_authed_sid erase_victim same_session find_by_key bound_token pack_session_key
    unpack_session_sid unpack_session_serial matches_packed_session_key
second_bound = refl

-- The first session's token, on the second session's socket.
token_on_bound :
    (reconnect_sessions two_sessions 70 71 (1 ∷ []) 2 6).1.code ≡ ReconnectWorldResultCode.success
unfolding bind_authenticated_world_session replace_sessions insert_session evict_old
    erase_authed_sid erase_victim same_session find_by_key bound_token pack_session_key
    unpack_session_sid unpack_session_serial matches_packed_session_key reconnect_sessions
    reconnect_key reconnect_mismatch is_valid_session_key
token_on_bound = refl

reconnect-Overwritten_example :
    Overwritten (reconnect_sessions two_sessions 70 71 (1 ∷ []) 2 6).0 71 2 second_session
reconnect-Overwritten_example =
    reconnect-Overwritten two_sessions 70 71 (1 ∷ []) 2 6 second_session two_sessions-IsConsistent
      second_bound (λ e. omega arith) token_on_bound

two_sessions-Reachable : Reachable two_sessions
two_sessions-Reachable =
    after one_session two_sessions
      (after no_sessions one_session start (bind 70 71 1 5 (1 ∷ []) (omega arith) (omega arith)))
      (bind 80 81 2 6 (2 ∷ []) (omega arith) (omega arith))

single_active_session_example : ◌≡◌ {A = ℕ} 1 1
single_active_session_example =
    single_active_session two_sessions 1 1 first_session first_session two_sessions-Reachable
      first_bound first_bound (inl refl)

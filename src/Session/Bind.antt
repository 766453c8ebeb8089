-- ===== src/Session/Bind.antt =====
-- `WorldRuntime::BindAuthenticatedWorldSessionForLogin`: the critical section that makes a new session
-- the authoritative one of its account and its char.
pub mod Insert
pub mod Evict
pub mod Authority
use new_server.Prelude.{
  ℕ, Bool, true, false, ◌&&◌, ◌||◌, not, Option, none, some, List, [], put, erase, if◌then◌else◌,
  ◌==◌, nat_eq, bytes_eq,
}
use new_server.Session.Key.{
  is_valid_session_key, pack_session_key, unpack_session_sid, unpack_session_serial,
  matches_packed_session_key,
}
use new_server.Session.Types.{
  WorldAuthedSession, no_session, WorldEnterStage, WorldSessionCloseReason, DuplicateSessionCause,
  BindAuthedWorldSessionResult, BindAuthedWorldSessionResultKind, UnbindAuthedWorldSessionResult,
  UnbindAuthedWorldSessionResultKind,
}
use new_server.Session.Tables.{
  WorldSessions, erase_index, erase_token, erase_authed_sid, find_by_key, or_no_session,
}

-- Whether the entry under the new sid is the very session that is bound.
unfoldable pub same_session : Option WorldAuthedSession → ℕ → ℕ → ℕ → Bool
same_session none account_id char_id serial = false
same_session (some existing) account_id char_id serial =
    existing.serial == serial && existing.account_id == account_id && existing.char_id == char_id

-- The token passes on from the char's old session; else it is a fresh one.
unfoldable pub bound_token : WorldAuthedSession → List ℕ → List ℕ
bound_token old_char fresh_token =
    if old_char.reconnect_token == [] then fresh_token else old_char.reconnect_token

-- Both old sessions go; the account's only where it is not the char's.
unfoldable pub evict_old : WorldSessions → WorldAuthedSession → WorldAuthedSession → WorldSessions
evict_old w old_char old_account =
    let w' = if old_char.sid == 0 then w else erase_authed_sid w old_char.sid in
    if not (old_account.sid == 0) && not (old_account.sid == old_char.sid)
    then erase_authed_sid w' old_account.sid
    else w'

-- The writes that make the new session the authoritative one.
unfoldable pub insert_session : WorldSessions → WorldAuthedSession → WorldSessions
insert_session w session =
    let key = pack_session_key session.sid session.serial in
    record w {
      authed_sessions_by_sid = put w.authed_sessions_by_sid session.sid session;
      authed_session_key_by_char_id = put w.authed_session_key_by_char_id session.char_id key;
      authed_session_key_by_account_id =
          put w.authed_session_key_by_account_id session.account_id key;
      reconnect_session_key_by_token =
          put w.reconnect_session_key_by_token session.reconnect_token key;
      session_close_reason_by_session_key = erase w.session_close_reason_by_session_key key;
    }

unfoldable pub replaced_kind : Bool → Bool → BindAuthedWorldSessionResultKind
replaced_kind true true = BindAuthedWorldSessionResultKind.replaced_both
replaced_kind true false = BindAuthedWorldSessionResultKind.replaced_char_session
replaced_kind false true = BindAuthedWorldSessionResultKind.replaced_account_session
replaced_kind false false = BindAuthedWorldSessionResultKind.inserted

unfoldable pub replaced_cause : Bool → Bool → DuplicateSessionCause
replaced_cause true true = DuplicateSessionCause.duplicate_char_and_account_session
replaced_cause true false = DuplicateSessionCause.duplicate_char_session
replaced_cause false true = DuplicateSessionCause.duplicate_account_session
replaced_cause false false = DuplicateSessionCause.none

-- The branch that replaces: `w` has no other session under the new sid any more.
unfoldable pub replace_sessions :
    WorldSessions → WorldAuthedSession → List ℕ → WorldSessions × BindAuthedWorldSessionResult
replace_sessions w asked fresh_token =
    let old_char = or_no_session (find_by_key w (w.authed_session_key_by_char_id asked.char_id)) in
    let old_account =
      or_no_session (find_by_key w (w.authed_session_key_by_account_id asked.account_id)) in
    let current : WorldAuthedSession = record asked {
      reconnect_token = bound_token old_char fresh_token;
    } in
    let has_char = not (old_char.sid == 0) in
    let has_account = not (old_account.sid == 0) in
    (
      insert_session (evict_old w old_char old_account) current,
      record {
        kind = replaced_kind has_char has_account;
        duplicate_cause = replaced_cause has_char has_account;
        current_session = current;
        old_char_session = old_char;
        old_account_session = old_account;
      },
    )

abbrev unchanged_result :
    BindAuthedWorldSessionResultKind → WorldAuthedSession → BindAuthedWorldSessionResult
unchanged_result kind asked = record {
  kind = kind;
  duplicate_cause = DuplicateSessionCause.none;
  current_session = asked;
  old_char_session = no_session;
  old_account_session = no_session;
}

-- The session asked for; its token is decided later.
abbrev pub asked_session : ℕ → ℕ → ℕ → ℕ → WorldAuthedSession
asked_session account_id char_id sid serial = record {
  account_id = account_id;
  char_id = char_id;
  sid = sid;
  serial = serial;
  reconnect_token = [];
}

-- `BindAuthenticatedWorldSessionForLogin` up to the close of the old sessions. `fresh_token` is the
-- token that `GenerateReconnectToken_` would return.
unfoldable pub bind_authenticated_world_session :
    WorldSessions → ℕ → ℕ → ℕ → ℕ → List ℕ → WorldSessions × BindAuthedWorldSessionResult
bind_authenticated_world_session w account_id char_id sid serial fresh_token =
    let asked = asked_session account_id char_id sid serial in
    if account_id == 0 || char_id == 0 || sid == 0 || serial == 0
    then (w, unchanged_result BindAuthedWorldSessionResultKind.invalid_input asked)
    else if same_session (w.authed_sessions_by_sid sid) account_id char_id serial
    then (w, unchanged_result BindAuthedWorldSessionResultKind.already_bound_same_session asked)
    else replace_sessions (erase_authed_sid w sid) asked fresh_token

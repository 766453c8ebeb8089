-- ===== src/Session/Kick.antt =====
-- The kick of a session that a newer bind has replaced: the bind's own part of
-- src/services/world/runtime/world_runtime_session.cpp after its critical section, and the job that it
-- dispatches to the strand of duplicate sessions.
pub mod Stale
use new_server.Prelude.{
  ℕ, ◌+◌, ◌%◌, Bool, ◌&&◌, ◌||◌, not, Option, none, some, List, [], ◌∷◌, if◌then◌else◌, ◌==◌,
  u64_mod, nat_eq, bytes_eq,
}
use new_server.Session.Key.{is_valid_session_key, pack_session_key}
use new_server.Session.Types.{
  WorldAuthedSession, WorldSessionCloseReason, DuplicateSessionCause, SessionKickStatCategory,
  UnbindAuthedWorldSessionResult, UnbindAuthedWorldSessionResultKind, BindAuthedWorldSessionResult,
  has_old_char_session, has_old_account_session,
}
use new_server.Session.Tables.{WorldSessions, find_authenticated_world_session_by_sid}
use new_server.Session.Unbind.{unbind_authenticated_world_session_by_sid}
use new_server.Session.Bind.{bind_authenticated_world_session}
use new_server.Session.Stage.{mark_enter_world_session_closing, mark_world_session_close_reason}
use new_server.Session.Close.{
  DelayedCloses, DelayedCloseKey, DelayedCloseEntry, TimerReport, close_key, close_reason_of,
  try_reserve_delayed_world_close, arm_reserved_delayed_world_close, on_delayed_close_timer,
  release_delayed_world_close_reservation, update_reserved_delayed_world_close_context,
}
use new_server.Session.Pending.{PendingFlows, abort_enter_world_flow_by_session}
use new_server.Session.Lifecycle.{WorldRuntime, abort_flow}

pub record DuplicateLoginLogContext : Type 0 where
  pub trace_id : ℕ
  pub account_id : ℕ
  pub char_id : ℕ
  pub sid : ℕ
  pub serial : ℕ
  pub new_sid : ℕ
  pub new_serial : ℕ
  pub packet_kick_reason : ℕ
  pub log_cause : DuplicateSessionCause
  pub stat_category : SessionKickStatCategory

or_fallback : ℕ → ℕ → ℕ
or_fallback id fallback = if id == 0 then fallback else id

-- `EnqueueDuplicateAuthedSessionCloseIfNeeded_` and `EnqueueDuplicateWorldSessionKickClose_`: the
-- kick that is dispatched, if any. The 64-bit trace counter wraps.
unfoldable pub enqueue_duplicate_authed_session_close :
    WorldRuntime
    → WorldAuthedSession
    → WorldAuthedSession
    → ℕ
    → DuplicateSessionCause
    → SessionKickStatCategory
    → WorldRuntime × Option DuplicateLoginLogContext
unfolding or_fallback
enqueue_duplicate_authed_session_close rt victim current packet_kick_reason cause category =
    let char_id = or_fallback victim.char_id current.char_id in
    if not (is_valid_session_key victim.sid victim.serial)
    then (rt, none)
    else if victim.sid == current.sid && victim.serial == current.serial
    then (rt, none)
    else (
      record rt { duplicate_login_trace_seq = (rt.duplicate_login_trace_seq + 1) % u64_mod },
      if char_id == 0
          then none
          else some (record {
            trace_id = rt.duplicate_login_trace_seq;
            account_id = or_fallback victim.account_id current.account_id;
            char_id = char_id;
            sid = victim.sid;
            serial = victim.serial;
            new_sid = current.sid;
            new_serial = current.serial;
            packet_kick_reason = packet_kick_reason;
            log_cause = cause;
            stat_category = category;
          }),
    )

abbrev opt_cons {ℓ} : {A : Type ℓ} → Option A → List A → List A
opt_cons none xs = xs
opt_cons (some x) xs = x ∷ xs

-- The part of the bind after its critical section: one kick for each old session, and one only
-- where both lookups found the same session.
enqueue_kicks :
    WorldRuntime → BindAuthedWorldSessionResult → ℕ → WorldRuntime × List DuplicateLoginLogContext
enqueue_kicks rt r kick_reason =
    let both = has_old_char_session r && has_old_account_session r in
    let shared =
      r.old_account_session.sid == r.old_char_session.sid
      && r.old_account_session.serial == r.old_char_session.serial in
    let of_char =
      if has_old_char_session r
      then enqueue_duplicate_authed_session_close rt r.old_char_session r.current_session
          kick_reason
          (if both
            then DuplicateSessionCause.duplicate_char_and_account_session
            else DuplicateSessionCause.duplicate_char_session)
          (if both
            then SessionKickStatCategory.duplicate_both
            else SessionKickStatCategory.duplicate_char)
      else (rt, none) in
    let of_account =
      if has_old_account_session r && not shared
      then enqueue_duplicate_authed_session_close of_char.0 r.old_account_session r.current_session
          kick_reason
          (if both
            then DuplicateSessionCause.duplicate_char_and_account_session
            else DuplicateSessionCause.duplicate_account_session)
          (if both
            then SessionKickStatCategory.duplicate_both
            else SessionKickStatCategory.duplicate_account)
      else (of_char.0, none) in
    (of_account.0, opt_cons of_char.1 (opt_cons of_account.1 []))

-- `BindAuthenticatedWorldSessionForLogin`, whole.
unfoldable pub bind_authenticated_world_session_for_login :
    WorldRuntime
    → ℕ
    → ℕ
    → ℕ
    → ℕ
    → ℕ
    → List ℕ
    → WorldRuntime × BindAuthedWorldSessionResult × List DuplicateLoginLogContext
unfolding enqueue_kicks
bind_authenticated_world_session_for_login rt account_id char_id sid serial kick_reason
      fresh_token =
    let b =
      bind_authenticated_world_session rt.sessions account_id char_id sid serial fresh_token in
    let kicked = enqueue_kicks (record rt { sessions = b.0 }) b.1 kick_reason in
    (kicked.0, b.1, kicked.1)

-- `TryBeginDuplicateWorldSessionKickClose_`
unfoldable pub try_begin_duplicate_world_session_kick_close :
    WorldRuntime → DuplicateLoginLogContext → WorldRuntime × Bool
try_begin_duplicate_world_session_kick_close rt ctx =
    let aborted = abort_flow rt ctx.sid ctx.serial in
    let w =
      mark_world_session_close_reason aborted.sessions ctx.sid ctx.serial
        WorldSessionCloseReason.duplicate_kick in
    let reserved = try_reserve_delayed_world_close aborted.closes ctx.sid ctx.serial in
    (record aborted { sessions = w; closes = reserved.0 }, reserved.1)

-- `ProcessDuplicateWorldSessionKickOnIo_`: `send_ok` is what sending the kick packet returns. The
-- second part of the result is the socket that is closed at once.
unfoldable pub process_duplicate_world_session_kick_on_io :
    WorldRuntime → DuplicateLoginLogContext → Bool → Bool → WorldRuntime × Option DelayedCloseKey
process_duplicate_world_session_kick_on_io rt ctx has_line send_ok =
    let begun = try_begin_duplicate_world_session_kick_close rt ctx in
    let armed =
      arm_reserved_delayed_world_close begun.0.sessions begun.0.closes ctx.sid ctx.serial
        ctx.trace_id ctx.char_id in
    let closes = if send_ok then armed.0 else begun.0.closes in
    let updated =
      update_reserved_delayed_world_close_context closes ctx.sid ctx.serial ctx.trace_id
        ctx.char_id in
    if ctx.char_id == 0 || not (is_valid_session_key ctx.sid ctx.serial) || not has_line
    then (rt, none)
    else if not begun.1
    then (begun.0, none)
    else if send_ok && armed.1
    then (record (begun.0) { closes = armed.0 }, none)
    else (record (begun.0) { closes = updated.0 }, some (close_key ctx.sid ctx.serial))

-- ===== src/Session/Lifecycle.antt =====
-- The runtime's session state as a whole, and how a session ends: a closed socket and the grace timer
-- (src/services/world/runtime/world_runtime_session.cpp). A job that the source dispatches to the strand of
-- duplicate sessions is a function of its own.
pub mod Grace
pub mod Logout
use new_server.Prelude.{
  ℕ, Bool, true, false, ◌&&◌, not, Option, none, some, erase, if◌then◌else◌, ◌==◌, nat_eq,
}
use new_server.Session.Key.{is_valid_session_key, pack_session_key}
use new_server.Session.Types.{
  WorldAuthedSession, WorldSessionCloseReason, DuplicateSessionCause, SessionKickStatCategory,
  UnbindAuthedWorldSessionResult, UnbindAuthedWorldSessionResultKind, BindAuthedWorldSessionResult,
  has_old_char_session, has_old_account_session,
}
use new_server.Session.Tables.{WorldSessions, find_authenticated_world_session_by_sid}
use new_server.Session.Unbind.{unbind_authenticated_world_session_by_sid}
use new_server.Session.Bind.{bind_authenticated_world_session}
use new_server.Session.Stage.{mark_enter_world_session_closing, mark_world_session_close_reason}
use new_server.Session.Close.{
  DelayedCloses, DelayedCloseKey, DelayedCloseEntry, TimerReport, close_key, close_reason_of,
  try_reserve_delayed_world_close, arm_reserved_delayed_world_close, on_delayed_close_timer,
  release_delayed_world_close_reservation, update_reserved_delayed_world_close_context,
}
use new_server.Session.Pending.{PendingFlows, abort_enter_world_flow_by_session}

pub record WorldRuntime : Type 0 where
  pub sessions : WorldSessions
  pub closes : DelayedCloses
  pub flows : PendingFlows
  pub duplicate_login_trace_seq : ℕ

-- What the lambda of `HandleWorldSessionClosed` captures.
pub record CloseJob : Type 0 where
  pub sid : ℕ
  pub serial : ℕ
  pub close_char_id : ℕ
  pub close_reason : WorldSessionCloseReason

char_id_of : Option WorldAuthedSession → ℕ
char_id_of none = 0
char_id_of (some session) = session.char_id

abbrev pub abort_flow : WorldRuntime → ℕ → ℕ → WorldRuntime
abort_flow rt sid serial =
    let aborted = abort_enter_world_flow_by_session rt.sessions rt.flows sid serial in
    record rt { sessions = aborted.0; flows = aborted.1 }

-- The second critical section of a close: the stage of the key is forgotten.
unfoldable pub forget_stage : WorldSessions → ℕ → ℕ → WorldSessions
forget_stage w sid serial = record w {
  world_enter_stage_by_session_key =
      erase w.world_enter_stage_by_session_key (pack_session_key sid serial);
}

-- The two critical sections of a close, with no other between them.
unfoldable pub close_stage : WorldSessions → ℕ → ℕ → WorldSessions
close_stage w sid serial = forget_stage (mark_enter_world_session_closing w sid serial) sid serial

-- `HandleWorldSessionClosed`, up to the job that it dispatches.
unfoldable pub handle_world_session_closed : WorldRuntime → ℕ → ℕ → WorldRuntime × CloseJob
unfolding char_id_of
handle_world_session_closed rt sid serial =
    let aborted = abort_flow rt sid serial in
    let w = close_stage aborted.sessions sid serial in
    (
      record aborted { sessions = w },
      record {
        sid = sid;
        serial = serial;
        close_char_id = char_id_of (find_authenticated_world_session_by_sid w sid);
        close_reason = close_reason_of w sid serial;
      },
    )

-- Explicit logouts have no grace.
unfoldable pub allow_grace : WorldSessionCloseReason → Bool
allow_grace WorldSessionCloseReason.explicit_soft_logout = false
allow_grace WorldSessionCloseReason.explicit_hard_logout = false
allow_grace _ = true

-- `MakeClosedAuthedSessionContext_` with the reason that is set after it.
pub record ClosedAuthedSessionContext : Type 0 where
  pub unbind_kind : UnbindAuthedWorldSessionResultKind
  pub account_id : ℕ
  pub char_id : ℕ
  pub sid : ℕ
  pub serial : ℕ
  pub close_reason : WorldSessionCloseReason

unfoldable pub make_closed_authed_session_context :
    UnbindAuthedWorldSessionResult → ℕ → ℕ → WorldSessionCloseReason → ClosedAuthedSessionContext
make_closed_authed_session_context r sid serial reason = record {
  unbind_kind = r.kind;
  account_id = r.session.account_id;
  char_id = r.session.char_id;
  sid = sid;
  serial = serial;
  close_reason = reason;
}

unfoldable pub is_removed : UnbindAuthedWorldSessionResultKind → Bool
is_removed UnbindAuthedWorldSessionResultKind.removed = true
is_removed _ = false

-- `CleanupClosedWorldSessionActors_`: the char whose actor is told to leave the world, if any.
unfoldable pub cleanup_closed_world_session_actors :
    ClosedAuthedSessionContext → Option ClosedAuthedSessionContext
cleanup_closed_world_session_actors ctx =
    if is_removed ctx.unbind_kind && not (ctx.char_id == 0) then some ctx else none

unfoldable pub process_world_session_closed_on_io :
    WorldRuntime → ℕ → ℕ → WorldRuntime × Option ClosedAuthedSessionContext
process_world_session_closed_on_io rt sid serial =
    if is_valid_session_key sid serial
    then (let released = release_delayed_world_close_reservation rt.closes sid serial in
        let reason = close_reason_of rt.sessions sid serial in
        let unbound = unbind_authenticated_world_session_by_sid rt.sessions sid serial in
        (
          record rt { closes = released.0; sessions = unbound.0 },
          cleanup_closed_world_session_actors
              (make_closed_authed_session_context unbound.1 sid serial reason),
        ))
    else (rt, none)

-- The dispatched job: under grace the close is only armed; else the session is processed at once.
unfoldable pub run_close_job :
    WorldRuntime → CloseJob → WorldRuntime × Option ClosedAuthedSessionContext
run_close_job rt job =
    let reserved = try_reserve_delayed_world_close rt.closes job.sid job.serial in
    let armed =
      arm_reserved_delayed_world_close rt.sessions reserved.0 job.sid job.serial 0
        job.close_char_id in
    let released = (release_delayed_world_close_reservation armed.0 job.sid job.serial).0 in
    if allow_grace job.close_reason
    then (if reserved.1
        then (if armed.1
            then (record rt { closes = armed.0 }, none)
            else process_world_session_closed_on_io (record rt { closes = released }) job.sid
                job.serial)
        else process_world_session_closed_on_io (record rt { closes = reserved.0 }) job.sid
            job.serial)
    else process_world_session_closed_on_io rt job.sid job.serial

-- `OnLineClosed` of the world line: the handler and its job.
unfoldable pub on_line_closed :
    WorldRuntime → ℕ → ℕ → WorldRuntime × Option ClosedAuthedSessionContext
on_line_closed rt sid serial =
    let handled = handle_world_session_closed rt sid serial in run_close_job handled.0 handled.1

-- The grace timer's handler: the runtime after it, and the socket that it closes.
unfoldable pub on_close_timer :
    WorldRuntime → ℕ → ℕ → ℕ → TimerReport → Bool → WorldRuntime × Option DelayedCloseKey
on_close_timer rt sid serial timer report has_line =
    let r = on_delayed_close_timer rt.closes sid serial timer report has_line in
    (record rt { closes = r.0 }, r.1)

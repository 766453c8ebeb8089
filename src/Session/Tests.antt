-- ===== src/Session/Tests.antt =====
-- Concrete sessions that the theorems about the session tables apply to.
use new_server.Prelude.{
  ℕ, ◌≡◌, refl, ◌≢◌, ◌↔◌, inl, true, false, none, some, [], ◌∷◌, arith, empty, put, nat_eq,
  bytes_eq,
}
use new_server.Session.Kick.Stale.{kicks-AllEvicted, EvictedKick, AllKicks}
use new_server.Session.Kick.{bind_authenticated_world_session_for_login}
use new_server.Session.Tables.Same.{SameTables-IsConsistent}
use new_server.Session.Lifecycle.Logout.{logout_unbinds}
use new_server.Session.Lifecycle.Grace.{grace_keeps_bound, SameBound}
use new_server.Session.Stage.Flow.{enter_flow, begin_started, begin_exclusive}
use new_server.Session.Close.{close_key, TimerReport, close_reason_of}
use new_server.Session.Pending.Abort.{abort-Aborted, Aborted}
use new_server.Session.Pending.{
  abort_enter_world_flow_by_session, PendingEnterWorldConsumeRequest, PendingFlows,
}
use new_server.Session.Lifecycle.{on_close_timer, on_line_closed, WorldRuntime}
use new_server.Session.Stage.{
  held_by_other, rejected_by_stage, is_enter_world_session_pending,
  promote_enter_world_session_to_in_world, mark_world_session_close_reason,
  try_begin_enter_world_session,
}
use new_server.Session.Key.{
  IsKey, unpack-pack, pack_session_key, unpack_session_sid, unpack_session_serial,
  is_valid_session_key,
}
use new_server.Session.Types.{
  WorldEnterStage, WorldSessionCloseReason, BeginEnterWorldSessionResultKind, WorldAuthedSession,
}
use new_server.Session.Tables.{find_by_key, erase_authed_sid, WorldSessions}
use new_server.Session.Tables.Consistent.{IsConsistent}
use new_server.Session.Bind.{
  same_session, evict_old, insert_session, replace_sessions, asked_session,
  bind_authenticated_world_session,
}
use new_server.Session.Bind.Authority.{Bound, bind-Bound}
use new_server.Session.Unbind.{unbind_authenticated_world_session_by_sid}
use new_server.Session.Unbind.Removal.{unbind-IsConsistent, unbind_exact}

abbrev pub no_sessions : WorldSessions
no_sessions = record {
  authed_sessions_by_sid = empty;
  authed_session_key_by_char_id = empty;
  authed_session_key_by_account_id = empty;
  reconnect_session_key_by_token = empty;
  session_close_reason_by_session_key = empty;
  world_enter_stage_by_session_key = empty;
  pending_enter_session_key_by_char_id = empty;
}

pub no_sessions-IsConsistent : IsConsistent no_sessions
no_sessions-IsConsistent = record {
  owns = λ s x h. cc;
  char_names = λ c k h. cc;
  account_names = λ a k h. cc;
}

pub one_five-IsKey : IsKey 1 5
one_five-IsKey = record {
  sid_pos = omega arith;
  sid_fits = omega arith;
  serial_pos = omega arith;
  serial_fits = omega arith;
}

pub two_six-IsKey : IsKey 2 6
two_six-IsKey = record {
  sid_pos = omega arith;
  sid_fits = omega arith;
  serial_pos = omega arith;
  serial_fits = omega arith;
}

unpack-pack_example :
    (unpack_session_sid (pack_session_key 1 5) ≡ 1)
    × (unpack_session_serial (pack_session_key 1 5) ≡ 5)
unpack-pack_example = unpack-pack 1 5 one_five-IsKey

-- Account 70 with char 71 on the session (1, 5).
abbrev pub one_session : WorldSessions
one_session = (bind_authenticated_world_session no_sessions 70 71 1 5 (1 ∷ [])).0

pub one_session-Bound : Bound no_sessions one_session (asked_session 70 71 1 5)
one_session-Bound =
    bind-Bound no_sessions 70 71 1 5 (1 ∷ []) no_sessions-IsConsistent one_five-IsKey (omega arith)
      (omega arith)

-- The account comes back with another char on another session.
bind-Bound_example :
    Bound one_session
      (bind_authenticated_world_session one_session 70 72 2 6 (2 ∷ [])).0
      (asked_session 70 72 2 6)
bind-Bound_example =
    bind-Bound one_session 70 72 2 6 (2 ∷ []) one_session-Bound.consistent two_six-IsKey
      (omega arith) (omega arith)

unbind_exact_example :
    ((unbind_authenticated_world_session_by_sid one_session 1 5).0.authed_sessions_by_sid 1
      ≡ some one_session-Bound.session)
    ↔ ((one_session.authed_sessions_by_sid 1 ≡ some one_session-Bound.session)
        × ¬ ((◌≡◌ {A = ℕ} 1 1) × (one_session-Bound.session.serial ≡ 5)))
unbind_exact_example =
    unbind_exact one_session 1 5 1 one_session-Bound.session one_session-Bound.consistent

unbind-IsConsistent_example :
    IsConsistent (unbind_authenticated_world_session_by_sid one_session 1 5).0
unbind-IsConsistent_example = unbind-IsConsistent one_session 1 5 one_session-Bound.consistent

one_begun :
    (try_begin_enter_world_session no_sessions 1 5 70 71).1.kind
    ≡ BeginEnterWorldSessionResultKind.started
unfolding try_begin_enter_world_session is_valid_session_key rejected_by_stage held_by_other
one_begun = refl

enter_flow_example :
    let begun = (try_begin_enter_world_session no_sessions 1 5 70 71).0 in
    let bound = (bind_authenticated_world_session begun 70 71 1 5 (1 ∷ [])).0 in
    let r = promote_enter_world_session_to_in_world bound 1 5 71 in
    (is_enter_world_session_pending bound 1 5 71 ≡ true)
    × (r.1 ≡ true)
    × (r.0.world_enter_stage_by_session_key (pack_session_key 1 5) ≡ some WorldEnterStage.in_world)
    × (r.0.pending_enter_session_key_by_char_id 71 ≡ none)
    × (is_enter_world_session_pending r.0 1 5 71 ≡ false)
enter_flow_example =
    enter_flow no_sessions 1 5 70 71 (1 ∷ []) no_sessions-IsConsistent one_five-IsKey (omega arith)
      (omega arith) one_begun

-- The session (1, 5) is entering with char 71.
abbrev one_entering : WorldSessions
one_entering = (try_begin_enter_world_session no_sessions 1 5 70 71).0

other_key : pack_session_key 1 5 ≢ pack_session_key 2 6
unfolding pack_session_key
other_key = omega arith

begin_exclusive_example :
    let r = try_begin_enter_world_session one_entering 2 6 70 71 in
    (r.1.kind ≢ BeginEnterWorldSessionResultKind.started) × (r.0 ≡ one_entering)
begin_exclusive_example =
    begin_exclusive one_entering (pack_session_key 1 5) 2 6 70 71
      (begin_started no_sessions 1 5 70 71 one_begun).1 other_key

abbrev no_flows : PendingFlows
no_flows = record {
  pending_enter_world_consume = empty;
  pending_enter_world_finalize_by_assign_request = [];
  pending_zone_assign_requests = empty;
  pending_zone_assign_request_id_by_map_key = empty;
  pending_character_enter_snapshot_requests = empty;
  pending_zone_player_enter_requests = empty;
}

-- A request of the session (1, 5) and one of (2, 6).
abbrev a_request : ℕ → ℕ → PendingEnterWorldConsumeRequest
a_request sid serial = record {
  trace_id = 1;
  request_id = sid;
  sid = sid;
  serial = serial;
  use_protobuf = false;
  account_id = 70;
  char_id = 71;
  login_session = [];
  world_token = [];
  issued_at = 0;
}

abbrev two_requests : PendingFlows
two_requests = record no_flows {
  pending_enter_world_consume = put (put empty 1 (a_request 1 5)) 2 (a_request 2 6);
}

valid_1_5 : is_valid_session_key 1 5 ≡ true
unfolding is_valid_session_key
valid_1_5 = refl

abort-Aborted_example :
    let r = abort_enter_world_flow_by_session one_entering two_requests 1 5 in
    Aborted one_entering r.0 two_requests r.1 1 5
abort-Aborted_example = abort-Aborted one_entering two_requests 1 5 valid_1_5

abbrev a_runtime : WorldSessions → WorldRuntime
a_runtime w = record {
  sessions = w;
  closes = record { delayed_world_close_entries = empty; next_timer = 3 };
  flows = two_requests;
  duplicate_login_trace_seq = 1;
}

one_reason : close_reason_of one_session 1 5 ≡ WorldSessionCloseReason.network_disconnect
unfolding close_reason_of bind_authenticated_world_session replace_sessions insert_session evict_old
    erase_authed_sid same_session find_by_key pack_session_key
one_reason = refl

grace_keeps_bound_example :
    let closed = on_line_closed (a_runtime one_session) 1 5 in
    let fired = on_close_timer closed.0 1 5 3 TimerReport.fired true in
    (SameBound one_session fired.0.sessions)
    × (closed.1 ≡ none)
    × (fired.1 ≡ some (close_key 1 5))
    × (fired.0.closes.delayed_world_close_entries (close_key 1 5) ≡ none)
grace_keeps_bound_example =
    grace_keeps_bound (a_runtime one_session) 1 5 valid_1_5 (λ e. cc (e, one_reason))
      (λ e. cc (e, one_reason)) refl

-- The session (1, 5) after the explicit logout.
abbrev logged_out : WorldSessions
logged_out =
    mark_world_session_close_reason one_session 1 5 WorldSessionCloseReason.explicit_soft_logout

logged_out-IsConsistent : IsConsistent logged_out
unfolding mark_world_session_close_reason is_valid_session_key pack_session_key
logged_out-IsConsistent =
    SameTables-IsConsistent (record { sids = refl; chars = refl; accounts = refl })
      one_session-Bound.consistent

soft_reason : close_reason_of logged_out 1 5 ≡ WorldSessionCloseReason.explicit_soft_logout
unfolding close_reason_of mark_world_session_close_reason is_valid_session_key pack_session_key
soft_reason = refl

logout_unbinds_example :
    (IsConsistent (on_line_closed (a_runtime logged_out) 1 5).0.sessions)
    × ((s : ℕ) (y : WorldAuthedSession)
        → ((on_line_closed (a_runtime logged_out) 1 5).0.sessions.authed_sessions_by_sid s ≡ some y)
          ↔ ((logged_out.authed_sessions_by_sid s ≡ some y) × ¬ ((s ≡ 1) × (y.serial ≡ 5))))
logout_unbinds_example =
    logout_unbinds (a_runtime logged_out) 1 5 logged_out-IsConsistent valid_1_5 (inl soft_reason)

-- The same account and char come back on another session: the old one is kicked.
kicks-AllEvicted_example :
    let r =
      bind_authenticated_world_session_for_login (a_runtime one_session) 70 71 2 6 9 (2 ∷ []) in
    AllKicks (EvictedKick one_session r.0.sessions 70 71) r.2
kicks-AllEvicted_example =
    kicks-AllEvicted (a_runtime one_session) 70 71 2 6 9 (2 ∷ []) one_session-Bound.consistent
      two_six-IsKey (omega arith) (omega arith)

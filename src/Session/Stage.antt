-- ===== src/Session/Stage.antt =====
-- The enter-world stages of src/services/world/runtime/world_runtime_session.cpp: begin, cancel,
-- promote and close, each one critical section over the tables.
pub mod Moves
pub mod Flow
use new_server.Prelude.{
  ℕ, Bool, true, false, ◌&&◌, ◌||◌, not, Option, none, some, Map, put, erase, if◌then◌else◌, ◌==◌,
  nat_eq,
}
use new_server.Session.Key.{is_valid_session_key, pack_session_key}
use new_server.Session.Types.{
  WorldAuthedSession, WorldEnterStage, BeginEnterWorldSessionResult,
  BeginEnterWorldSessionResultKind, WorldSessionCloseReason,
}
use new_server.Session.Tables.{WorldSessions}

-- The `switch` on the stored stage: what it returns, or that it goes on.
unfoldable pub rejected_by_stage : Option WorldEnterStage → Option BeginEnterWorldSessionResult
rejected_by_stage none = none
rejected_by_stage (some WorldEnterStage.none) = none
rejected_by_stage (some WorldEnterStage.enter_pending) = some (record {
  kind = BeginEnterWorldSessionResultKind.already_pending;
  stage = WorldEnterStage.enter_pending;
})
rejected_by_stage (some WorldEnterStage.in_world) = some (record {
  kind = BeginEnterWorldSessionResultKind.already_in_world;
  stage = WorldEnterStage.in_world;
})
rejected_by_stage (some WorldEnterStage.closing) =
    some
      (record { kind = BeginEnterWorldSessionResultKind.closing; stage = WorldEnterStage.closing })

-- Whether another session is already entering with the char.
unfoldable pub held_by_other : Option ℕ → ℕ → Bool
held_by_other none session_key = false
held_by_other (some key) session_key = not (key == session_key)

begin_entry : WorldSessions → ℕ → ℕ → WorldSessions × BeginEnterWorldSessionResult
begin_entry w session_key char_id =
    if held_by_other (w.pending_enter_session_key_by_char_id char_id) session_key
    then (
      w,
      record {
        kind = BeginEnterWorldSessionResultKind.already_pending;
        stage = WorldEnterStage.enter_pending;
      },
    )
    else (
      record w {
        world_enter_stage_by_session_key =
            put w.world_enter_stage_by_session_key session_key WorldEnterStage.enter_pending;
        pending_enter_session_key_by_char_id =
            put w.pending_enter_session_key_by_char_id char_id session_key;
      },
      record {
        kind = BeginEnterWorldSessionResultKind.started;
        stage = WorldEnterStage.enter_pending;
      },
    )

unfoldable pub try_begin_enter_world_session :
    WorldSessions → ℕ → ℕ → ℕ → ℕ → WorldSessions × BeginEnterWorldSessionResult
unfolding begin_entry
try_begin_enter_world_session w sid serial account_id char_id =
    if not (is_valid_session_key sid serial) || account_id == 0 || char_id == 0
    then (
      w,
      record {
        kind = BeginEnterWorldSessionResultKind.invalid_input;
        stage = WorldEnterStage.none;
      },
    )
    else (let key = pack_session_key sid serial in
        elim (rejected_by_stage (w.world_enter_stage_by_session_key key)) [
          | none ↦ begin_entry w key char_id
          | some result ↦ (w, result)
        ])

unfoldable pub is_pending_stage : Option WorldEnterStage → Bool
is_pending_stage (some WorldEnterStage.enter_pending) = true
is_pending_stage _ = false

-- The entry of the char, erased where it holds the session's key.
unfoldable pub erase_pending : Map ℕ ℕ → ℕ → ℕ → Map ℕ ℕ
erase_pending m char_id session_key = elim (m char_id) [
  | none ↦ m
  | some key ↦ if key == session_key then erase m char_id else m
]

unfoldable pub cancel_pending_enter_world_session : WorldSessions → ℕ → ℕ → ℕ → WorldSessions
cancel_pending_enter_world_session w sid serial char_id =
    let key = pack_session_key sid serial in
    if is_valid_session_key sid serial
    then record w {
      world_enter_stage_by_session_key =
          if is_pending_stage (w.world_enter_stage_by_session_key key)
          then erase w.world_enter_stage_by_session_key key
          else w.world_enter_stage_by_session_key;
      pending_enter_session_key_by_char_id =
          if char_id == 0
          then w.pending_enter_session_key_by_char_id
          else erase_pending w.pending_enter_session_key_by_char_id char_id key;
    }
    else w

unfoldable pub names_key : Option ℕ → ℕ → Bool
names_key none session_key = false
names_key (some key) session_key = key == session_key

unfoldable pub is_enter_world_session_pending : WorldSessions → ℕ → ℕ → ℕ → Bool
is_enter_world_session_pending w sid serial char_id =
    let key = pack_session_key sid serial in
    is_valid_session_key sid serial
    && not (char_id == 0)
    && is_pending_stage (w.world_enter_stage_by_session_key key)
    && names_key (w.pending_enter_session_key_by_char_id char_id) key

-- Whether the session bound under the sid has the serial and the char.
unfoldable pub is_authed_as : Option WorldAuthedSession → ℕ → ℕ → Bool
is_authed_as none serial char_id = false
is_authed_as (some session) serial char_id = session.serial == serial && session.char_id == char_id

-- The checks of a promotion, in the source's order.
unfoldable pub can_promote : WorldSessions → ℕ → ℕ → ℕ → Bool
can_promote w sid serial char_id =
    let key = pack_session_key sid serial in
    is_valid_session_key sid serial
    && not (char_id == 0)
    && is_pending_stage (w.world_enter_stage_by_session_key key)
    && is_authed_as (w.authed_sessions_by_sid sid) serial char_id
    && names_key (w.pending_enter_session_key_by_char_id char_id) key

unfoldable pub promote_enter_world_session_to_in_world :
    WorldSessions → ℕ → ℕ → ℕ → WorldSessions × Bool
promote_enter_world_session_to_in_world w sid serial char_id =
    if can_promote w sid serial char_id
    then (
      record w {
        pending_enter_session_key_by_char_id = erase w.pending_enter_session_key_by_char_id char_id;
        world_enter_stage_by_session_key =
            put w.world_enter_stage_by_session_key (pack_session_key sid serial)
              WorldEnterStage.in_world;
      },
      true,
    )
    else (w, false)

-- The pending entry that a session bound under the sid leaves behind.
erase_authed_pending : WorldSessions → ℕ → ℕ → Map ℕ ℕ
erase_authed_pending w sid serial = elim (w.authed_sessions_by_sid sid) [
  | none ↦ w.pending_enter_session_key_by_char_id
  | some session ↦
      if session.serial == serial
      then erase_pending w.pending_enter_session_key_by_char_id session.char_id
          (pack_session_key sid serial)
      else w.pending_enter_session_key_by_char_id
]

unfoldable pub mark_enter_world_session_closing : WorldSessions → ℕ → ℕ → WorldSessions
unfolding erase_authed_pending
mark_enter_world_session_closing w sid serial =
    if is_valid_session_key sid serial
    then record w {
      world_enter_stage_by_session_key =
          put w.world_enter_stage_by_session_key (pack_session_key sid serial)
            WorldEnterStage.closing;
      pending_enter_session_key_by_char_id = erase_authed_pending w sid serial;
    }
    else w

unfoldable pub mark_world_session_close_reason :
    WorldSessions → ℕ → ℕ → WorldSessionCloseReason → WorldSessions
mark_world_session_close_reason w sid serial reason =
    if is_valid_session_key sid serial
    then record w {
      session_close_reason_by_session_key =
          put w.session_close_reason_by_session_key (pack_session_key sid serial) reason;
    }
    else w

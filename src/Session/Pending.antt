-- ===== src/Session/Pending.antt =====
-- The pending requests of the enter-world flow (src/services/world/runtime/world_runtime_types.h and
-- world_session_types.h) and their removal when a session goes away.
pub mod Abort
use new_server.Prelude.{
  ℕ, Bool, ◌&&◌, none, some, List, [], ◌∷◌, Map, put, erase, erase_if, if◌then◌else◌, ◌==◌, nat_eq,
  bytes_eq,
}
use new_server.Session.Key.{is_valid_session_key, pack_session_key}
use new_server.Session.Types.{WorldEnterStage}
use new_server.Session.Tables.{WorldSessions}
use new_server.Character.State.{CharacterCoreState}

pub record PendingEnterWorldConsumeRequest : Type 0 where
  pub trace_id : ℕ
  pub request_id : ℕ
  pub sid : ℕ
  pub serial : ℕ
  pub use_protobuf : Bool
  pub account_id : ℕ
  pub char_id : ℕ
  pub login_session : List ℕ
  pub world_token : List ℕ
  pub issued_at : ℕ

pub record PendingZoneAssignRequest : Type 0 where
  pub trace_id : ℕ
  pub request_id : ℕ
  pub map_key : ℕ
  pub target_sid : ℕ
  pub target_serial : ℕ
  pub target_zone_server_id : ℕ
  pub target_zone_id : ℕ
  pub target_channel_id : ℕ
  pub map_template_id : ℕ
  pub instance_id : ℕ
  pub issued_at : ℕ

pub record PendingEnterWorldFinalize : Type 0 where
  pub assign_request_id : ℕ
  pub enter_pending : PendingEnterWorldConsumeRequest
  pub map_template_id : ℕ
  pub instance_id : ℕ
  pub core_state : CharacterCoreState

pub record PendingZonePlayerEnterRequest : Type 0 where
  pub trace_id : ℕ
  pub request_id : ℕ
  pub target_sid : ℕ
  pub target_serial : ℕ
  pub target_zone_server_id : ℕ
  pub target_zone_id : ℕ
  pub enter_pending : PendingEnterWorldConsumeRequest
  pub map_template_id : ℕ
  pub instance_id : ℕ
  pub core_state : CharacterCoreState
  pub cached_state_blob : List ℕ
  pub issued_at : ℕ

pub record PendingCharacterEnterSnapshotRequest : Type 0 where
  pub trace_id : ℕ
  pub request_id : ℕ
  pub enter_pending : PendingEnterWorldConsumeRequest
  pub issued_at : ℕ

-- The table of finalizes is walked with effects on the other tables, so it is a list of entries.
pub record PendingFlows : Type 0 where
  pub pending_enter_world_consume : Map ℕ PendingEnterWorldConsumeRequest
  pub pending_enter_world_finalize_by_assign_request : List (ℕ × List PendingEnterWorldFinalize)
  pub pending_zone_assign_requests : Map ℕ PendingZoneAssignRequest
  pub pending_zone_assign_request_id_by_map_key : Map ℕ ℕ
  pub pending_character_enter_snapshot_requests : Map ℕ PendingCharacterEnterSnapshotRequest
  pub pending_zone_player_enter_requests : Map ℕ PendingZonePlayerEnterRequest

unfoldable pub is_of_session : ℕ → ℕ → PendingEnterWorldConsumeRequest → Bool
is_of_session sid serial pending = pending.sid == sid && pending.serial == serial

unfoldable pub erase_pending_consume_by_session : PendingFlows → ℕ → ℕ → PendingFlows
erase_pending_consume_by_session p sid serial =
    if is_valid_session_key sid serial
    then record p {
      pending_enter_world_consume =
          erase_if (is_of_session sid serial) p.pending_enter_world_consume;
    }
    else p

-- `std::remove_if` on a list of finalizes.
unfoldable pub drop_finalizes :
    ℕ → ℕ → List PendingEnterWorldFinalize → List PendingEnterWorldFinalize
drop_finalizes sid serial [] = []
drop_finalizes sid serial (e ∷ es) =
    let rest = drop_finalizes sid serial es in
    if is_of_session sid serial e.enter_pending then rest else e ∷ rest

-- The zone assignment that no finalize waits for any more, and its map key.
unfoldable pub drop_orphan_assign : PendingFlows → ℕ → PendingFlows
drop_orphan_assign p request_id = elim (p.pending_zone_assign_requests request_id) [
  | none ↦ p
  | some assign ↦ record p {
    pending_zone_assign_request_id_by_map_key =
        erase p.pending_zone_assign_request_id_by_map_key assign.map_key;
    pending_zone_assign_requests = erase p.pending_zone_assign_requests request_id;
  }
]

-- The walk: the entries that are left, and the other tables after it.
unfoldable pub walk_finalizes :
    ℕ
    → ℕ
    → List (ℕ × List PendingEnterWorldFinalize)
    → PendingFlows
    → List (ℕ × List PendingEnterWorldFinalize) × PendingFlows
walk_finalizes sid serial [] p = ([], p)
walk_finalizes sid serial ((request_id, list) ∷ entries) p =
    let left = drop_finalizes sid serial list in
    let none_left = walk_finalizes sid serial entries (drop_orphan_assign p request_id) in
    let some_left = walk_finalizes sid serial entries p in
    elim left [ [] ↦ none_left | e ∷ es ↦ ((request_id, e ∷ es) ∷ some_left.0, some_left.1) ]

unfoldable pub erase_pending_finalize_by_session : PendingFlows → ℕ → ℕ → PendingFlows
erase_pending_finalize_by_session p sid serial =
    let walked = walk_finalizes sid serial p.pending_enter_world_finalize_by_assign_request p in
    if is_valid_session_key sid serial
    then record (walked.1) { pending_enter_world_finalize_by_assign_request = walked.0 }
    else p

unfoldable pub erase_pending_snapshot_by_session : PendingFlows → ℕ → ℕ → PendingFlows
erase_pending_snapshot_by_session p sid serial =
    if is_valid_session_key sid serial
    then record p {
      pending_character_enter_snapshot_requests =
          erase_if (λ r. is_of_session sid serial r.enter_pending)
            p.pending_character_enter_snapshot_requests;
    }
    else p

unfoldable pub erase_pending_zone_player_enter_by_session : PendingFlows → ℕ → ℕ → PendingFlows
erase_pending_zone_player_enter_by_session p sid serial =
    if is_valid_session_key sid serial
    then record p {
      pending_zone_player_enter_requests =
          erase_if (λ r. is_of_session sid serial r.enter_pending)
            p.pending_zone_player_enter_requests;
    }
    else p

-- The session tables' part of the abort: the stage is Closing and no char is pending for the key.
unfoldable pub abort_stage : WorldSessions → ℕ → ℕ → WorldSessions
abort_stage w sid serial =
    let key = pack_session_key sid serial in
    record w {
      world_enter_stage_by_session_key =
          put w.world_enter_stage_by_session_key key WorldEnterStage.closing;
      pending_enter_session_key_by_char_id =
          erase_if (λ k. k == key) w.pending_enter_session_key_by_char_id;
    }

-- `AbortEnterWorldFlowBySession_`. What it collects for its log line is left out.
unfoldable pub abort_enter_world_flow_by_session :
    WorldSessions → PendingFlows → ℕ → ℕ → WorldSessions × PendingFlows
abort_enter_world_flow_by_session w p sid serial =
    let p1 = erase_pending_consume_by_session p sid serial in
    let p2 = erase_pending_finalize_by_session p1 sid serial in
    let p3 = erase_pending_snapshot_by_session p2 sid serial in
    let p4 = erase_pending_zone_player_enter_by_session p3 sid serial in
    if is_valid_session_key sid serial then (abort_stage w sid serial, p4) else (w, p)

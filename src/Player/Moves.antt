-- ===== src/Player/Moves.antt =====
-- The position and the session of a player's actor.
use new_server.Prelude.{
  ℕ, Bool, true, false, ◌&&◌, ◌||◌, not, none, some, if◌then◌else◌, ◌==◌, nat_eq,
}
use new_server.Prelude.Int.{ℤ, pos}
use new_server.Character.State.{CharacterPosition, dirty_position}
use new_server.Player.{
  Vec2i, PlayerActor, invalid_sid, mutable_core_state, with_core, write_hot, mark_hot_dirty,
  sync_projection_from_core_state,
}

unfoldable pub set_world_position : PlayerActor → ℕ → ℕ → ℕ → ℤ → ℤ → ℤ → ℤ → PlayerActor
set_world_position p zone_id map_id map_instance_id x y z heading =
    let hot = (mutable_core_state p).hot in
    let position : CharacterPosition = record {
      map_id = map_id;
      zone_id = zone_id;
      x = x;
      y = y;
      z = z;
      heading = heading;
    } in
    sync_projection_from_core_state (
      write_hot (record p { map_instance_id = map_instance_id })
        (record hot { position = position }) dirty_position)

unfoldable pub clear_world_position : PlayerActor → PlayerActor
clear_world_position p =
    let hot = (mutable_core_state p).hot in
    let position : CharacterPosition = record {
      map_id = 0;
      zone_id = 0;
      x = pos 0;
      y = pos 0;
      z = pos 0;
      heading = pos 0;
    } in
    sync_projection_from_core_state (
      write_hot (record p { map_instance_id = 0 })
        (record hot { position = position; in_world = false }) dirty_position)

unfoldable pub bind_session : PlayerActor → ℕ → ℕ → PlayerActor
bind_session p sid serial =
    let bound : PlayerActor = record p { sid = sid; serial = serial; online = true } in
    elim p.core_state [
      | none ↦ bound
      | some core ↦
          sync_projection_from_core_state
            (with_core bound (record core { hot = record (core.hot) { in_world = true } }))
    ]

-- A disconnect with another sid or serial is stale.
unfoldable pub unbind_session : PlayerActor → ℕ → ℕ → PlayerActor
unbind_session p sid serial =
    let gone : PlayerActor = record p { online = false; sid = invalid_sid; serial = 0 } in
    let out : PlayerActor = elim p.core_state [
      | none ↦ gone
      | some core ↦ with_core gone (record core {
        hot = mark_hot_dirty (record (core.hot) { in_world = false }) dirty_position;
      })
    ] in
    if not (p.sid == sid) || not (p.serial == serial) then p else out

unfoldable pub has_session : PlayerActor → Bool
has_session p = p.online && not (p.sid == invalid_sid)

unfoldable pub get_position : PlayerActor → Vec2i
get_position p = elim p.core_state [
  | none ↦ p.position
  | some core ↦ record { x = core.hot.position.x; y = core.hot.position.y }
]

unfoldable pub get_zone_id : PlayerActor → ℕ
get_zone_id p = elim p.core_state [ none ↦ p.zone_id | some core ↦ core.hot.position.zone_id ]

unfoldable pub get_map_id : PlayerActor → ℕ
get_map_id p = elim p.core_state [ none ↦ p.map_template_id | some core ↦ core.hot.position.map_id ]

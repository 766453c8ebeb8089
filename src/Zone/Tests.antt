-- ===== src/Zone/Tests.antt =====
-- A few messages held back for two sessions, and a player that moves.
use new_server.Prelude.Int.{pos}
use new_server.Prelude.{
  ℕ, ◌≡◌, refl, ◌≢◌, Bool, true, false, none, some, [], ◌∷◌, arith, empty, ◌==◌, nat_eq,
}
use new_server.Player.{Vec2i}
use new_server.Zone.Cells.{
  contains, u32_bits, ids_at, clamp, cell_key, to_cell, to_cell_clamped, join_or_update, PlayerInfo,
  ZoneActor, SectorContainer,
}
use new_server.Zone.Cells.Placed.{join_left_behind, join-IsPlaced}
use new_server.Zone.Cells.Stands.{stands_in, IsPlaced, in_cell}
use new_server.Zone.Sends.{
  reverse_onto, replace_newest, push_back, in_budget, drain_queue, coalesce, bytes_of, enqueue_on,
  flush_sids, flush_pending_sends, enqueue_send, PendingNetSend, ZoneSends, queue_of,
}
use new_server.Zone.Sends.Flush.{flush-Flushed, Flushed}
use new_server.Zone.Sends.Within.{total, enqueue-AllWithin, AllWithin}

abbrev move : ℕ → ℕ → ℕ → PendingNetSend
move sid char_id size = record {
  sid = sid;
  serial = 1;
  h_size = size;
  h_type = 5;
  body = none;
  msg_type = 5;
  move_char_id = char_id;
}

abbrev idle : ZoneSends
idle = record { pending_by_sid = empty; pending_bytes_by_sid = empty }

idle-AllWithin : AllWithin idle
unfolding queue_of bytes_of total
idle-AllWithin sid = record { msgs = omega arith; exact = refl; capped = omega arith }

one-AllWithin : AllWithin (enqueue_send idle (move 7 3 20))
one-AllWithin = enqueue-AllWithin idle (move 7 3 20) idle-AllWithin

-- The second move of a char replaces the first.
enqueue-AllWithin_example : AllWithin (enqueue_send (enqueue_send idle (move 7 3 20)) (move 7 3 24))
enqueue-AllWithin_example =
    enqueue-AllWithin (enqueue_send idle (move 7 3 20)) (move 7 3 24) one-AllWithin

replaced :
    queue_of (enqueue_send (enqueue_send idle (move 7 3 20)) (move 7 3 24)) 7 ≡ move 7 3 24 ∷ []
unfolding enqueue_send enqueue_on coalesce push_back replace_newest reverse_onto queue_of bytes_of
replaced = refl

abbrev two : ZoneSends
two = enqueue_send (enqueue_send idle (move 7 3 20)) (move 7 4 24)

two-AllWithin : AllWithin two
two-AllWithin = enqueue-AllWithin (enqueue_send idle (move 7 3 20)) (move 7 4 24) one-AllWithin

-- The second send is refused.
abbrev first_only : ℕ → Bool
first_only attempt = attempt == 0

flush-Flushed_example : Flushed two (flush_pending_sends first_only 2000 2097152 two (7 ∷ []))
flush-Flushed_example = flush-Flushed first_only 2000 2097152 two (7 ∷ []) two-AllWithin

flushed : (flush_pending_sends first_only 2000 2097152 two (7 ∷ [])).1 ≡ (7, move 7 3 20 ∷ []) ∷ []
unfolding flush_pending_sends flush_sids drain_queue in_budget enqueue_send enqueue_on coalesce
    push_back replace_newest reverse_onto queue_of bytes_of
flushed = refl

-- A map of 100 by 100 meters in cells of 10, with one player in its corner.
abbrev grid : SectorContainer
grid = record {
  inited = true;
  map_size = record { x = pos 100; y = pos 100 };
  unit = 10;
  aoi_r = 1;
  max_cx = 9;
  max_cy = 9;
}

abbrev nobody : ZoneActor
nobody = record { sector = grid; players = empty; cells = empty; pending_moves = empty }

nobody-IsPlaced : IsPlaced nobody
unfolding in_cell stands_in ids_at contains
nobody-IsPlaced key id = refl

abbrev at : ℕ → ℕ → Vec2i
at x y = record { x = pos x; y = pos y }

abbrev one : ZoneActor
one = join_or_update nobody 3 (at 5 5) 7 1

one-IsPlaced : IsPlaced one
one-IsPlaced = join-IsPlaced nobody 3 (at 5 5) 7 1 nobody-IsPlaced refl

abbrev placed : PlayerInfo
placed = record { pos = at 5 5; cx = pos 0; cy = pos 0; sid = 7; serial = 1 }

one_player : one.players 3 ≡ some placed
unfolding join_or_update to_cell_clamped to_cell clamp
one_player = refl

another_cell :
    let c = to_cell_clamped grid (at 95 95) in cell_key c.x c.y ≢ cell_key placed.cx placed.cy
unfolding to_cell_clamped to_cell clamp cell_key u32_bits
another_cell h = omega (arith, h)

join_left_behind_example :
    let z' = join_or_update one 3 (at 95 95) 7 1 in
    let key = cell_key (pos 0) (pos 0) in (in_cell z' key 3 ≡ true) × (stands_in z' key 3 ≡ false)
unfolding join_or_update
join_left_behind_example =
    join_left_behind one 3 placed (at 95 95) 7 1 one-IsPlaced one_player another_cell

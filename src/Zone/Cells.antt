-- ===== src/Zone/Cells.antt =====
-- The sector grid of a zone, and the players in its cells (src/services/world/actors/zone_actor.h).
pub mod Stands
pub mod Placed
pub mod Sets
pub mod Squares
use new_server.Prelude.{
  ℕ, suc, ◌+◌, ◌-◌, ◌*◌, ◌/◌, ◌%◌, Bool, true, false, ◌&&◌, ◌||◌, not, none, some, List, [], ◌∷◌,
  is_empty, Map, put, erase, if◌then◌else◌, ◌==◌, u32_mod, nat_eq,
}
use new_server.Player.{Vec2i}
use new_server.Prelude.Int.{ℤ, pos, negsuc, pos_part, sub_ℕ, ltb_ℤ, int_eq}

-- The fields of `SectorContainer` that the conversion of coordinates reads; `unit` is positive.
pub record SectorContainer : Type 0 where
  pub inited : Bool
  pub map_size : Vec2i
  pub unit : ℕ
  pub aoi_r : ℕ
  pub max_cx : ℕ
  pub max_cy : ℕ

-- `init_sector` with a positive unit: a map without area is refused.
unfoldable pub init_sector : SectorContainer → Vec2i → ℕ → ℕ → SectorContainer × Bool
init_sector s rc_size unit radius =
    if pos_part rc_size.x == 0 || pos_part rc_size.y == 0 || unit == 0 then (s, false) else (
      record {
        inited = true;
        map_size = rc_size;
        unit = unit;
        aoi_r = radius;
        max_cx = (pos_part rc_size.x - 1) / unit;
        max_cy = (pos_part rc_size.y - 1) / unit;
      },
      true,
    )

-- Division rounded down: `-(((-v) + unit - 1) / unit)` for a negative `v`. The integers here have no
-- bounds: for a `v` so low that `-v + unit - 1` does not fit in 32 bits, the source's sum overflows.
unfoldable pub to_cell : ℕ → ℤ → ℤ
to_cell unit (pos n) = pos (n / unit)
to_cell unit (negsuc n) = sub_ℕ 0 ((suc n + unit - 1) / unit)

unfoldable pub clamp : Bool → ℕ → ℤ → ℤ
clamp inited greatest c =
    if not inited
    then c
    else if ltb_ℤ c (pos 0)
    then pos 0
    else if ltb_ℤ (pos greatest) c
    then pos greatest
    else c

unfoldable pub to_cell_clamped : SectorContainer → Vec2i → Vec2i
to_cell_clamped s p = record {
  x = clamp s.inited s.max_cx (to_cell s.unit p.x);
  y = clamp s.inited s.max_cy (to_cell s.unit p.y);
}

-- The 32 bits of an integer.
unfoldable pub u32_bits : ℤ → ℕ
u32_bits (pos n) = n % u32_mod
u32_bits (negsuc n) = u32_mod - 1 - n % u32_mod

-- The 64 bits of the key: the low half of `cx << 32` is free, so the exclusive or is a sum.
unfoldable pub cell_key : ℤ → ℤ → ℕ
cell_key cx cy = u32_bits cx * u32_mod + u32_bits cy

pub record PlayerInfo : Type 0 where
  pub pos : Vec2i
  pub cx : ℤ
  pub cy : ℤ
  pub sid : ℕ
  pub serial : ℕ

-- A set of char ids is a list without repetitions. `pending_moves` holds the last move of each char.
pub record ZoneActor : Type 0 where
  pub sector : SectorContainer
  pub players : Map ℕ PlayerInfo
  pub cells : Map ℕ (List ℕ)
  pub pending_moves : Map ℕ Vec2i

unfoldable pub contains : ℕ → List ℕ → Bool
contains id [] = false
contains id (x ∷ xs) = x == id || contains id xs

unfoldable pub remove : ℕ → List ℕ → List ℕ
remove id [] = []
remove id (x ∷ xs) = let rest = remove id xs in if x == id then rest else x ∷ rest

unfoldable pub insert : ℕ → List ℕ → List ℕ
insert id ids = if contains id ids then ids else id ∷ ids

unfoldable pub ids_at : Map ℕ (List ℕ) → ℕ → List ℕ
ids_at cells key = elim (cells key) [ none ↦ [] | some ids ↦ ids ]

-- `cells[key].insert(id)`
unfoldable pub enter_cell : Map ℕ (List ℕ) → ℕ → ℕ → Map ℕ (List ℕ)
enter_cell cells key id = put cells key (insert id (ids_at cells key))

-- The id leaves the cell, and a cell that is empty then goes.
unfoldable pub leave_cell : Map ℕ (List ℕ) → ℕ → ℕ → Map ℕ (List ℕ)
leave_cell cells key id =
    let left = remove id (ids_at cells key) in
    elim (cells key) [
      | none ↦ cells
      | some ids ↦ if is_empty left then erase cells key else put cells key left
    ]

unfoldable pub join_or_update : ZoneActor → ℕ → Vec2i → ℕ → ℕ → ZoneActor
join_or_update z char_id new_pos sid serial =
    let c = to_cell_clamped z.sector new_pos in
    record z {
      players =
          put z.players char_id
            (record { pos = new_pos; cx = c.x; cy = c.y; sid = sid; serial = serial });
      cells = enter_cell z.cells (cell_key c.x c.y) char_id;
    }

unfoldable pub leave : ZoneActor → ℕ → ZoneActor
leave z char_id = elim (z.players char_id) [
  | none ↦ z
  | some pi ↦ record z {
    players = erase z.players char_id;
    cells = leave_cell z.cells (cell_key pi.cx pi.cy) char_id;
  }
]

-- The player moves to the cell of the new position, when that is another one.
unfoldable pub move_player : ZoneActor → ℕ → PlayerInfo → Vec2i → ℕ → ℕ → ZoneActor
move_player z char_id pi new_pos sid serial =
    let c = to_cell_clamped z.sector new_pos in
    let moved =
      enter_cell (leave_cell z.cells (cell_key pi.cx pi.cy) char_id) (cell_key c.x c.y) char_id in
    record z {
      players =
          put z.players char_id
            (record { pos = new_pos; cx = c.x; cy = c.y; sid = sid; serial = serial });
      cells = if c.x == pi.cx && c.y == pi.cy then z.cells else moved;
    }

unfoldable pub move_cell : ZoneActor → ℕ → Vec2i → ℕ → ℕ → ZoneActor
move_cell z char_id new_pos sid serial = elim (z.players char_id) [
  | none ↦ join_or_update z char_id new_pos sid serial
  | some pi ↦ move_player z char_id pi new_pos sid serial
]

unfoldable pub move_fast_update : ZoneActor → ℕ → Vec2i → ℕ → ℕ → ZoneActor
move_fast_update z char_id new_pos sid serial = record (move_cell z char_id new_pos sid serial) {
  pending_moves = put z.pending_moves char_id new_pos;
}

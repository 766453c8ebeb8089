-- ===== src/Zone/Cells/Squares.antt =====
-- The cell of a position: the square of the grid that covers it.
use native.Mathlib.Nat.{le-div_iff_mul-le, div-lt_iff_lt-mul}
use new_server.Player.{Vec2i}
use new_server.Prelude.Int.{ℤ, pos, negsuc, pos_part, sub_ℕ}
use new_server.Prelude.{
  ℕ, zero, suc, ◌+◌, ◌-◌, ◌*◌, ◌/◌, ◌≤◌, ◌<◌, ◌≡◌, refl, ◌⊎◌, inl, inr, true, none, some, arith,
  ltb, Bool-cases, Option-cases, ◌==◌, nat_eq, nat_beq_iff, put, erase,
}
use new_server.Zone.Cells.{
  PlayerInfo, to_cell, SectorContainer, clamp, ZoneActor, to_cell_clamped, leave, move_fast_update,
  move_cell, join_or_update, move_player,
}

-- A coordinate against its cell on one axis: the cell's stretch of `unit` covers the coordinate, those
-- below 0 being taken as 0, and the last cell covers all that lies beyond it.
pub record Covers (unit last : ℕ) (v c : ℤ) : Type 0 where
  pub index : ℕ
  pub is_index : c ≡ pos index
  pub on_map : index ≤ last
  pub from_left : index * unit ≤ pos_part v
  pub to_right : (index ≡ last) ⊎ (pos_part v < (index + 1) * unit)

-- A player's cell is the square that covers its position.
pub record InSquare (s : SectorContainer) (pi : PlayerInfo) : Type 0 where
  pub across : Covers s.unit s.max_cx pi.pos.x pi.cx
  pub down : Covers s.unit s.max_cy pi.pos.y pi.cy

abbrev pub AllInSquares : ZoneActor → Type 0
AllInSquares z = (id : ℕ) (pi : PlayerInfo) → z.players id ≡ some pi → InSquare z.sector pi

clamp-below : (last k : ℕ) → clamp true last (sub_ℕ 0 k) ≡ pos 0
unfolding clamp
clamp-below last zero = ground arith
clamp-below last (suc k) = ground arith

clamp-Covers :
    (unit last : ℕ) (v : ℤ) → 0 < unit → Covers unit last v (clamp true last (to_cell unit v))
unfolding clamp to_cell
clamp-Covers unit last (pos n) h = elim (Bool-cases (ltb last (n / unit))) [
  | inl far ↦ record {
    index = last;
    is_index = ground arith;
    on_map = omega arith;
    from_left = (le-div_iff_mul-le h).0 (ground arith);
    to_right = inl refl;
  }
  | inr near ↦ record {
    index = n / unit;
    is_index = ground arith;
    on_map = ground arith;
    from_left = (le-div_iff_mul-le h).0 (omega arith);
    to_right = inr ((div-lt_iff_lt-mul h).0 (omega arith));
  }
]
clamp-Covers unit last (negsuc n) h = record {
  index = 0;
  is_index = clamp-below last ((suc n + unit - 1) / unit);
  on_map = omega arith;
  from_left = omega arith;
  to_right = inr (omega (arith, h));
}

-- The player that is stored for a position.
abbrev pub player_at : SectorContainer → Vec2i → ℕ → ℕ → PlayerInfo
player_at s new_pos sid serial =
    let c = to_cell_clamped s new_pos in
    record { pos = new_pos; cx = c.x; cy = c.y; sid = sid; serial = serial }

module _ (z : ZoneActor) (inited : z.sector.inited ≡ true) (positive : 0 < z.sector.unit) where
  player_at-InSquare :
      (new_pos : Vec2i) (sid serial : ℕ) → InSquare z.sector (player_at z.sector new_pos sid serial)
  unfolding to_cell_clamped
  player_at-InSquare new_pos sid serial = record {
    across = rw inited (clamp-Covers z.sector.unit z.sector.max_cx new_pos.x positive);
    down = rw inited (clamp-Covers z.sector.unit z.sector.max_cy new_pos.y positive);
  }

  pub put-AllInSquares :
      (id : ℕ) (new_pos : Vec2i) (sid serial : ℕ)
      → AllInSquares z
      → AllInSquares
          (record z { players = put z.players id (player_at z.sector new_pos sid serial) })
  put-AllInSquares id new_pos sid serial all j pi h = elim (Bool-cases (id == j)) [
    | inl e ↦
        let stored : some (player_at z.sector new_pos sid serial) ≡ some pi = rw (e, put) at h in
        let same : pi ≡ player_at z.sector new_pos sid serial = cc in
        rw same (player_at-InSquare new_pos sid serial)
    | inr e ↦ all j pi (rw (e, put) at h)
  ]

  pub move-AllInSquares :
      (id : ℕ) (new_pos : Vec2i) (sid serial : ℕ)
      → AllInSquares z
      → AllInSquares (move_fast_update z id new_pos sid serial)
  unfolding move_fast_update move_cell join_or_update move_player
  move-AllInSquares id new_pos sid serial all = elim (Option-cases (z.players id)) [
    | inl e ↦ rw (e, move_cell) (put-AllInSquares id new_pos sid serial all)
    | inr (pi, e) ↦ rw (e, move_cell) (put-AllInSquares id new_pos sid serial all)
  ]

pub leave-AllInSquares : (z : ZoneActor) (id : ℕ) → AllInSquares z → AllInSquares (leave z id)
unfolding leave
leave-AllInSquares z id all = elim (Option-cases (z.players id)) [
  | inl e ↦ rw (e, leave) all
  | inr (pi, e) ↦
      rw (e, leave)
        (λ j pj h. elim (Bool-cases (id == j)) [
          | inl f ↦ let gone : none ≡ some pj = rw (f, erase) at h in absurd cc
          | inr f ↦ all j pj (rw (f, erase) at h)
        ])
]

pub moved_player :
    (z : ZoneActor) (id : ℕ) (new_pos : Vec2i) (sid serial : ℕ)
    → (move_fast_update z id new_pos sid serial).players id
      ≡ some (player_at z.sector new_pos sid serial)
unfolding move_fast_update move_cell join_or_update move_player
moved_player z id new_pos sid serial =
    let self : (id == id) ≡ true = (nat_beq_iff id id).1 refl in
    elim (Option-cases (z.players id)) [
      | inl e ↦ rw (e, move_cell) (rw (self, put) refl)
      | inr (pi, e) ↦ rw (e, move_cell) (rw (self, put) refl)
    ]

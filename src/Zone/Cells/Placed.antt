-- ===== src/Zone/Cells/Placed.antt =====
-- The cells against the players.
use new_server.Prelude.Int.{beq_ℤ_iff, int_eq}
use new_server.Prelude.{
  ℕ, ◌≡◌, refl, sym, ap, ◌∙◌, ◌≢◌, inl, inr, Bool, true, false, ◌&&◌, ◌||◌, none, some, arith,
  if◌then◌else◌, nat_beq_iff, ◌==◌, Bool-cases, Option-cases, nat_eq,
}
use new_server.Zone.Cells.Stands.{
  stands-erase, stands-put, stood, moved_bits, left_bits, stands_in, IsPlaced, in_cell,
}
use new_server.Zone.Cells.Sets.{holds-enter, holds-leave}
use new_server.Player.{Vec2i}
use new_server.Zone.Cells.{
  leave_cell, enter_cell, to_cell_clamped, ids_at, cell_key, contains, PlayerInfo, leave, ZoneActor,
  move_player, join_or_update,
}

-- A char that leaves the zone is in no cell any more, and the others are where they were.
pub leave-IsPlaced : (z : ZoneActor) (id : ℕ) → IsPlaced z → IsPlaced (leave z id)
unfolding leave in_cell stands_in
leave-IsPlaced z id placed k j = elim (Option-cases (z.players id)) [
  | inl e ↦ rw (e, leave) (placed k j)
  | inr (pi, e) ↦
      let key = cell_key pi.cx pi.cy in
      rw (e, leave)
        (holds-leave z.cells key id k j
          ∙ left_bits (key == k) (id == j) (contains j (ids_at z.cells k)) (stands_in z k j)
              (stood z k id j pi placed e) (λ other. placed k j)
          ∙ sym (stands-erase z id k j))
]

-- Between two cells.
between-IsPlaced :
    (z : ZoneActor) (id : ℕ) (old new : PlayerInfo) (k j : ℕ)
    → IsPlaced z
    → z.players id ≡ some old
    → contains j (
        ids_at
          (enter_cell (leave_cell z.cells (cell_key old.cx old.cy) id) (cell_key new.cx new.cy) id)
          k)
      ≡ (if id == j then cell_key new.cx new.cy == k else stands_in z k j)
unfolding in_cell
between-IsPlaced z id old new k j placed e =
    let from = cell_key old.cx old.cy in
    let to = cell_key new.cx new.cy in
    holds-enter (leave_cell z.cells from id) to id k j
    ∙ ap (λ b. to == k && id == j || b) (holds-leave z.cells from id k j)
    ∙ moved_bits (from == k) (to == k) (id == j) (contains j (ids_at z.cells k)) (stands_in z k j)
        (stood z k id j old placed e) (λ other. placed k j)

stays-IsPlaced :
    (z : ZoneActor) (id : ℕ) (old new : PlayerInfo) (k j : ℕ)
    → IsPlaced z
    → z.players id ≡ some old
    → (new.cx == old.cx && new.cy == old.cy) ≡ true
    → contains j (ids_at z.cells k)
      ≡ (if id == j then cell_key new.cx new.cy == k else stands_in z k j)
unfolding in_cell
stays-IsPlaced z id old new k j placed e same = elim (Bool-cases (id == j)) [
  | inl here ↦
      let cx : new.cx ≡ old.cx = (beq_ℤ_iff new.cx old.cx).0 (ground arith) in
      let cy : new.cy ≡ old.cy = (beq_ℤ_iff new.cy old.cy).0 (ground arith) in
      rw here (rw (cx, cy) (stood z k id j old placed e here))
  | inr other ↦ rw other (placed k j)
]

choose {ℓ} :
    {A : Type ℓ} (f : A → Bool) (b : Bool) (x y : A) (r : Bool)
    → (b ≡ true → f x ≡ r)
    → (b ≡ false → f y ≡ r)
    → f (if b then x else y) ≡ r
choose f true x y r h k = h refl
choose f false x y r h k = k refl

pub move_player-IsPlaced :
    (z : ZoneActor) (id : ℕ) (old : PlayerInfo) (new_pos : Vec2i) (sid serial : ℕ)
    → IsPlaced z
    → z.players id ≡ some old
    → IsPlaced (move_player z id old new_pos sid serial)
unfolding move_player in_cell stands_in
move_player-IsPlaced z id old new_pos sid serial placed e k j =
    let c = to_cell_clamped z.sector new_pos in
    let new : PlayerInfo = record {
      pos = new_pos;
      cx = c.x;
      cy = c.y;
      sid = sid;
      serial = serial;
    } in
    choose (λ cells. contains j (ids_at cells k)) (c.x == old.cx && c.y == old.cy) z.cells
      (enter_cell (leave_cell z.cells (cell_key old.cx old.cy) id) (cell_key c.x c.y) id)
      (if id == j then cell_key c.x c.y == k else stands_in z k j)
      (stays-IsPlaced z id old new k j placed e)
      (λ other. between-IsPlaced z id old new k j placed e)
    ∙ sym (stands-put z id k j new)

joined_bits :
    (new same held stands : Bool)
    → (same ≡ true → held ≡ false)
    → (same ≡ false → held ≡ stands)
    → (new && same || held) ≡ (if same then new else stands)
joined_bits new same held stands h k = ground arith

absent :
    (z : ZoneActor) (k id j : ℕ)
    → IsPlaced z
    → z.players id ≡ none
    → (id == j) ≡ true
    → contains j (ids_at z.cells k) ≡ false
unfolding in_cell stands_in
absent z k id j placed e same =
    let at : id ≡ j = (nat_beq_iff id j).0 same in
    let gone : z.players j ≡ none = ap z.players (sym at) ∙ e in
    placed k j ∙ rw (gone, stands_in) refl

pub join-IsPlaced :
    (z : ZoneActor) (id : ℕ) (new_pos : Vec2i) (sid serial : ℕ)
    → IsPlaced z
    → z.players id ≡ none
    → IsPlaced (join_or_update z id new_pos sid serial)
unfolding join_or_update in_cell stands_in
join-IsPlaced z id new_pos sid serial placed e k j =
    let c = to_cell_clamped z.sector new_pos in
    let to = cell_key c.x c.y in
    holds-enter z.cells to id k j
    ∙ joined_bits (to == k) (id == j) (contains j (ids_at z.cells k)) (stands_in z k j)
        (absent z k id j placed e) (λ other. placed k j)
    ∙ sym (
        stands-put z id k j
          (record { pos = new_pos; cx = c.x; cy = c.y; sid = sid; serial = serial }))

-- A join of a char whose player is in the zone already, at a position in another cell, leaves it in
-- the old cell too, where its player does not stand any more.
pub join_left_behind :
    (z : ZoneActor) (id : ℕ) (old : PlayerInfo) (new_pos : Vec2i) (sid serial : ℕ)
    → let c = to_cell_clamped z.sector new_pos in
      let key = cell_key old.cx old.cy in
      let z' = join_or_update z id new_pos sid serial in
      IsPlaced z
      → z.players id ≡ some old
      → cell_key c.x c.y ≢ key
      → (in_cell z' key id ≡ true) × (stands_in z' key id ≡ false)
unfolding join_or_update in_cell stands_in
join_left_behind z id old new_pos sid serial placed e other =
    let c = to_cell_clamped z.sector new_pos in
    let key = cell_key old.cx old.cy in
    let to = cell_key c.x c.y in
    let new : PlayerInfo = record {
      pos = new_pos;
      cx = c.x;
      cy = c.y;
      sid = sid;
      serial = serial;
    } in
    let self : (id == id) ≡ true = (nat_beq_iff id id).1 refl in
    let there : contains id (ids_at z.cells key) ≡ true =
      stood z key id id old placed e self ∙ (nat_beq_iff key key).1 refl in
    let apart : (to == key) ≡ false = ground arith in
    (
      holds-enter z.cells to id key id ∙ rw (apart, there) refl,
      stands-put z id key id new ∙ rw (self, apart) refl,
    )

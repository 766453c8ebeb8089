-- ===== src/Zone/Cells/Stands.antt =====
-- Where a player stands, by the cell that it names.
use new_server.Prelude.{
  ℕ, ◌≡◌, refl, sym, ap, ◌∙◌, inl, inr, Bool, true, false, ◌&&◌, ◌||◌, not, none, some, arith, put,
  erase, if◌then◌else◌, nat_beq_iff, ◌==◌, Bool-cases, nat_eq,
}
use new_server.Zone.Cells.{ids_at, contains, cell_key, PlayerInfo, ZoneActor}

-- Whether a cell holds a char, and whether the char's player names that cell as its own.
unfoldable pub in_cell : ZoneActor → ℕ → ℕ → Bool
in_cell z key id = contains id (ids_at z.cells key)

unfoldable pub stands_in : ZoneActor → ℕ → ℕ → Bool
stands_in z key id = elim (z.players id) [ none ↦ false | some pi ↦ cell_key pi.cx pi.cy == key ]

-- Each char is in the cell where its player stands, and in no other.
abbrev pub IsPlaced : ZoneActor → Type 0
IsPlaced z = (key id : ℕ) → in_cell z key id ≡ stands_in z key id

pub stands-put :
    (z : ZoneActor) (id k j : ℕ) (pi : PlayerInfo)
    → stands_in (record z { players = put z.players id pi }) k j
      ≡ (if id == j then cell_key pi.cx pi.cy == k else stands_in z k j)
unfolding stands_in
stands-put z id k j pi = elim (Bool-cases (id == j)) [
  | inl e ↦ rw (e, stands_in, put) refl
  | inr e ↦ rw (e, stands_in, put) refl
]

pub stands-erase :
    (z : ZoneActor) (id k j : ℕ)
    → stands_in (record z { players = erase z.players id }) k j
      ≡ (if id == j then false else stands_in z k j)
unfolding stands_in
stands-erase z id k j = elim (Bool-cases (id == j)) [
  | inl e ↦ rw (e, stands_in, erase) refl
  | inr e ↦ rw (e, stands_in, erase) refl
]

pub stands-some :
    (z : ZoneActor) (k id : ℕ) (pi : PlayerInfo)
    → z.players id ≡ some pi
    → stands_in z k id ≡ (cell_key pi.cx pi.cy == k)
unfolding stands_in
stands-some z k id pi e = rw (e, stands_in) refl

-- Where a char stood, under another name of it.
pub stood :
    (z : ZoneActor) (k id j : ℕ) (pi : PlayerInfo)
    → IsPlaced z
    → z.players id ≡ some pi
    → (id == j) ≡ true
    → contains j (ids_at z.cells k) ≡ (cell_key pi.cx pi.cy == k)
unfolding in_cell
stood z k id j pi placed e same =
    let at : id ≡ j = (nat_beq_iff id j).0 same in
    ap (λ i. contains i (ids_at z.cells k)) (sym at) ∙ placed k id ∙ stands-some z k id pi e

-- The logic of a step: `old`, `new` and `same` tell whether the cell is the old one or the new one and
-- the char is the one that moves.
pub moved_bits :
    (old new same held stands : Bool)
    → (same ≡ true → held ≡ old)
    → (same ≡ false → held ≡ stands)
    → (new && same || (not (old && same) && held)) ≡ (if same then new else stands)
moved_bits old new same held stands h k = ground arith

pub left_bits :
    (old same held stands : Bool)
    → (same ≡ true → held ≡ old)
    → (same ≡ false → held ≡ stands)
    → (not (old && same) && held) ≡ (if same then false else stands)
left_bits old same held stands h k = ground arith

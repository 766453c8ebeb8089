-- ===== src/Zone/Cells/Sets.antt =====
-- The sets of chars in the cells.
use new_server.Prelude.{
  ℕ, ◌≡◌, refl, sym, ap, ◌∙◌, inl, inr, ◌&&◌, ◌||◌, not, none, List, [], ◌∷◌, arith, List-cases,
  Map, put, erase, if◌then◌else◌, nat_beq_iff, ◌==◌, Bool-cases, Option-cases, nat_eq,
}
use new_server.Zone.Cells.{enter_cell, insert, contains, ids_at, remove, leave_cell}

contains-insert :
    (id j : ℕ) (ids : List ℕ) → contains j (insert id ids) ≡ (id == j || contains j ids)
unfolding insert contains
contains-insert id j ids = elim (Bool-cases (contains id ids)) [
  | inl e ↦ elim (Bool-cases (id == j)) [
    | inl same ↦
        let at : id ≡ j = (nat_beq_iff id j).0 same in
        rw (e, same) (ap (λ k. contains k ids) (sym at) ∙ e)
    | inr other ↦ rw (e, other) refl
  ]
  | inr e ↦ rw e refl
]

contains-remove :
    (id j : ℕ) (ids : List ℕ) → contains j (remove id ids) ≡ (not (id == j) && contains j ids)
unfolding remove contains
contains-remove id j [] = ground arith
contains-remove id j (x ∷ xs) = ground (arith, contains-remove id j xs)

ids_at-enter :
    (cells : Map ℕ (List ℕ)) (key id k : ℕ)
    → ids_at (enter_cell cells key id) k
      ≡ (if key == k then insert id (ids_at cells key) else ids_at cells k)
unfolding ids_at enter_cell
ids_at-enter cells key id k = elim (Bool-cases (key == k)) [
  | inl e ↦ rw (e, ids_at, put) refl
  | inr e ↦ rw (e, ids_at, put) refl
]

ids_at-put :
    (cells : Map ℕ (List ℕ)) (key k : ℕ) (ids : List ℕ)
    → ids_at (put cells key ids) k ≡ (if key == k then ids else ids_at cells k)
unfolding ids_at
ids_at-put cells key k ids = elim (Bool-cases (key == k)) [
  | inl e ↦ rw (e, ids_at, put) refl
  | inr e ↦ rw (e, ids_at, put) refl
]

ids_at-erase :
    (cells : Map ℕ (List ℕ)) (key k : ℕ)
    → ids_at (erase cells key) k ≡ (if key == k then [] else ids_at cells k)
unfolding ids_at
ids_at-erase cells key k = elim (Bool-cases (key == k)) [
  | inl e ↦ rw (e, ids_at, erase) refl
  | inr e ↦ rw (e, ids_at, erase) refl
]

ids_at-missing :
    (cells : Map ℕ (List ℕ)) (key k : ℕ)
    → cells key ≡ none
    → ids_at cells k ≡ (if key == k then [] else ids_at cells k)
unfolding ids_at
ids_at-missing cells key k e = elim (Bool-cases (key == k)) [
  | inl hit ↦
      let same : key ≡ k = (nat_beq_iff key k).0 hit in
      let gone : cells k ≡ none = ap cells (sym same) ∙ e in rw (hit, gone, ids_at) refl
  | inr miss ↦ rw miss refl
]

ids_at-none : (cells : Map ℕ (List ℕ)) (key : ℕ) → cells key ≡ none → ids_at cells key ≡ []
unfolding ids_at
ids_at-none cells key e = ground arith

ids_at-leave :
    (cells : Map ℕ (List ℕ)) (key id k : ℕ)
    → ids_at (leave_cell cells key id) k
      ≡ (if key == k then remove id (ids_at cells key) else ids_at cells k)
unfolding leave_cell remove
ids_at-leave cells key id k = elim (Option-cases (cells key)) [
  | inl e ↦
      let nothing : ids_at cells key ≡ [] = ids_at-none cells key e in
      rw (e, leave_cell) (rw nothing (ids_at-missing cells key k e))
  | inr (ids, e) ↦ elim (List-cases (remove id (ids_at cells key))) [
    | inl f ↦ rw (e, f, leave_cell) (ids_at-erase cells key k)
    | inr (x, xs, f) ↦ rw (e, f, leave_cell) (ids_at-put cells key k (x ∷ xs))
  ]
]

pub holds-enter :
    (cells : Map ℕ (List ℕ)) (key id k j : ℕ)
    → contains j (ids_at (enter_cell cells key id) k)
      ≡ (key == k && id == j || contains j (ids_at cells k))
holds-enter cells key id k j = rw (ids_at-enter cells key id k) (elim (Bool-cases (key == k)) [
  | inl e ↦
      let same : key ≡ k = (nat_beq_iff key k).0 e in
      rw e (
        contains-insert id j (ids_at cells key)
        ∙ ap (λ c. id == j || contains j (ids_at cells c)) same)
  | inr e ↦ rw e refl
])

pub holds-leave :
    (cells : Map ℕ (List ℕ)) (key id k j : ℕ)
    → contains j (ids_at (leave_cell cells key id) k)
      ≡ (not (key == k && id == j) && contains j (ids_at cells k))
holds-leave cells key id k j = rw (ids_at-leave cells key id k) (elim (Bool-cases (key == k)) [
  | inl e ↦
      let same : key ≡ k = (nat_beq_iff key k).0 e in
      rw e (
        contains-remove id j (ids_at cells key)
        ∙ ap (λ c. not (id == j) && contains j (ids_at cells c)) same)
  | inr e ↦ rw e refl
])

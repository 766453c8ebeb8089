-- ===== src/Player/Loot/Limit.antt =====
-- Counts of items, and the limit of 30 kinds.
use new_server.Prelude.{
  ℕ, ◌+◌, ◌%◌, ◌≤◌, ◌≡◌, refl, ◌≢◌, true, List, [], ◌∷◌, arith, length, if◌then◌else◌, ◌==◌,
  u32_mod, nat_eq,
}
use new_server.Player.{PlayerActor}
use new_server.Player.Loot.{has_item, add_item, can_add_item}

-- How many of an item there are.
unfoldable pub count_of : List (ℕ × ℕ) → ℕ → ℕ
count_of [] item_id = 0
count_of ((id, n) ∷ items) item_id = if id == item_id then n else count_of items item_id

-- Adding an item adds to its count, with the wrap of 32 bits, and to no other's.
pub count_of-add_item :
    (items : List (ℕ × ℕ)) (item_id count j : ℕ)
    → count_of (add_item items item_id count) j
      ≡ (if item_id == j then (count_of items item_id + count) % u32_mod else count_of items j)
unfolding count_of add_item
count_of-add_item [] item_id count j = ground arith
count_of-add_item ((id, n) ∷ items) item_id count j =
    ground (arith, count_of-add_item items item_id count j)

length-add_item :
    (items : List (ℕ × ℕ)) (item_id count : ℕ)
    → length (add_item items item_id count)
      ≡ (if has_item items item_id then length items else length items + 1)
unfolding add_item has_item
length-add_item [] item_id count = refl
length-add_item ((id, n) ∷ items) item_id count =
    ground (arith, length-add_item items item_id count)

-- With at most 30 kinds of items and an item id that is not zero: adding an item that may be added
-- leaves at most 30 kinds.
pub add_item_limit :
    (p : PlayerActor) (item_id count : ℕ)
    → item_id ≢ 0
    → length p.items ≤ 30
    → can_add_item p item_id count ≡ true
    → length (add_item p.items item_id count) ≤ 30
unfolding can_add_item
add_item_limit p item_id count real few may = ground (arith, length-add_item p.items item_id count)

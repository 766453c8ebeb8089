-- ===== src/Player/Loot.antt =====
-- `CanAddItem` and `CommitLoot` of the actor: items and loot transactions.
pub mod Once
pub mod Grants
pub mod Limit
use new_server.Prelude.{
  ℕ, ◌+◌, ◌%◌, Bool, true, false, ◌&&◌, ◌||◌, not, List, [], ◌∷◌, length, ltb, if◌then◌else◌, ◌==◌,
  u32_mod, nat_eq,
}
use new_server.Player.{PlayerActor, add_gold}

unfoldable pub has_item : List (ℕ × ℕ) → ℕ → Bool
has_item [] item_id = false
has_item ((id, count) ∷ items) item_id = id == item_id || has_item items item_id

-- At most 30 kinds of items.
unfoldable pub can_add_item : PlayerActor → ℕ → ℕ → Bool
can_add_item p item_id count =
    if item_id == 0
    then true
    else if has_item p.items item_id
    then true
    else ltb (length p.items) 30

-- `items[item_id] += count`
unfoldable pub add_item : List (ℕ × ℕ) → ℕ → ℕ → List (ℕ × ℕ)
add_item [] item_id count = (item_id, count % u32_mod) ∷ []
add_item ((id, n) ∷ items) item_id count =
    let rest = add_item items item_id count in
    if id == item_id then (id, (n + count) % u32_mod) ∷ items else (id, n) ∷ rest

unfoldable pub contains_tx : List ℕ → ℕ → Bool
contains_tx [] tx_id = false
contains_tx (tx ∷ txs) tx_id = tx == tx_id || contains_tx txs tx_id

-- The set after an insert and, where it is too large, the clear.
unfoldable pub remember_tx : List ℕ → ℕ → List ℕ
remember_tx txs tx_id = if ltb 2048 (length (tx_id ∷ txs)) then [] else tx_id ∷ txs

unfoldable pub grant_loot : PlayerActor → ℕ → ℕ → ℕ → PlayerActor
grant_loot p item_id count gold =
    let with_items : PlayerActor = record p { items = add_item p.items item_id count } in
    if not (item_id == 0) && not (count == 0) then add_gold with_items gold else add_gold p gold

unfoldable pub commit_loot : PlayerActor → ℕ → ℕ → ℕ → ℕ → PlayerActor
commit_loot p tx_id item_id count gold =
    if tx_id == 0
    then grant_loot p item_id count gold
    else if contains_tx p.committed_loot_txs tx_id
    then p
    else grant_loot (record p { committed_loot_txs = remember_tx p.committed_loot_txs tx_id })
        item_id count gold

-- ===== src/Player/Loot/Grants.antt =====
-- What a loot commit grants, on every branch.
use new_server.Prelude.{
  ℕ, ◌+◌, ◌%◌, ◌<◌, ◌≡◌, refl, ap, ◌∙◌, ◌≢◌, ◌⊎◌, inl, inr, true, false, ◌&&◌, not, arith, length,
  if◌then◌else◌, nat_beq_iff, ◌==◌, Bool-cases, u32_mod, nat_eq,
}
use new_server.Player.Loot.Limit.{count_of-add_item, count_of}
use new_server.Player.Loot.Once.{
  gold_of-txs, remember-contains, commit-txs, commit_again, grant-txs, gold_of-grant, gold_of,
}
use new_server.Player.Loot.{remember_tx, add_item, contains_tx, commit_loot, grant_loot}
use new_server.Player.{
  sync_combat_projection_from_authoritative, sync_projection_from_core_state, add_gold, PlayerActor,
}

-- What a grant does to the items and the gold.
pub record Granted (p q : PlayerActor) (item_id count gold : ℕ) : Type 0 where
  pub gold_paid : gold_of q ≡ (gold_of p + gold) % u32_mod
  pub item_added :
      item_id ≢ 0
      → count ≢ 0
      → count_of q.items item_id ≡ (count_of p.items item_id + count) % u32_mod
  pub other_items : (j : ℕ) → item_id ≢ j → count_of q.items j ≡ count_of p.items j
  pub no_item : (item_id ≡ 0) ⊎ (count ≡ 0) → q.items ≡ p.items

add_gold-items : (p : PlayerActor) (g : ℕ) → (add_gold p g).items ≡ p.items
unfolding add_gold sync_projection_from_core_state sync_combat_projection_from_authoritative
add_gold-items p g = refl

grant-items :
    (p : PlayerActor) (item_id count gold : ℕ)
    → (grant_loot p item_id count gold).items
      ≡ (if not (item_id == 0) && not (count == 0) then add_item p.items item_id count else p.items)
unfolding grant_loot
grant-items p item_id count gold = elim (Bool-cases (not (item_id == 0) && not (count == 0))) [
  | inl e ↦ rw e (add_gold-items (record p { items = add_item p.items item_id count }) gold)
  | inr e ↦ rw e (add_gold-items p gold)
]

items-Granted :
    (p q : PlayerActor) (item_id count gold : ℕ)
    → q.items
      ≡ (if not (item_id == 0) && not (count == 0) then add_item p.items item_id count else p.items)
    → gold_of q ≡ (gold_of p + gold) % u32_mod
    → Granted p q item_id count gold
items-Granted p q item_id count gold h paid = record {
  gold_paid = paid;
  item_added = λ a b.
      let there : (not (item_id == 0) && not (count == 0)) ≡ true = ground arith in
      let self : (item_id == item_id) ≡ true = (nat_beq_iff item_id item_id).1 refl in
      ap (λ xs. count_of xs item_id) (h ∙ rw there refl)
      ∙ count_of-add_item p.items item_id count item_id
      ∙ rw self refl;
  other_items = λ j a. elim (Bool-cases (not (item_id == 0) && not (count == 0))) [
    | inl there ↦
        let other : (item_id == j) ≡ false = ground arith in
        ap (λ xs. count_of xs j) (h ∙ rw there refl)
        ∙ count_of-add_item p.items item_id count j
        ∙ rw other refl
    | inr nothing ↦ ap (λ xs. count_of xs j) (h ∙ rw nothing refl)
  ];
  no_item = λ e.
      let nothing : (not (item_id == 0) && not (count == 0)) ≡ false = ground arith in
      h ∙ rw nothing refl;
}

-- A commit of a transaction that is committed already changes nothing. Any other commit pays the gold,
-- with the wrap of 32 bits, adds the item, if it has an id and a count, to its own count alone, and
-- remembers the transaction where fewer than 2048 are remembered; the id 0 is never remembered.
pub commit_loot-Granted :
    (p : PlayerActor) (tx_id item_id count gold : ℕ)
    → let q = commit_loot p tx_id item_id count gold in
      ((tx_id ≢ 0) × (contains_tx p.committed_loot_txs tx_id ≡ true) × (q ≡ p))
      ⊎ (Granted p q item_id count gold
          × (((tx_id ≡ 0) × (q.committed_loot_txs ≡ p.committed_loot_txs))
              ⊎ ((tx_id ≢ 0)
                  × (contains_tx p.committed_loot_txs tx_id ≡ false)
                  × (length p.committed_loot_txs < 2048
                      → contains_tx q.committed_loot_txs tx_id ≡ true))))
unfolding commit_loot
commit_loot-Granted p tx_id item_id count gold = elim (Bool-cases (tx_id == 0)) [
  | inl zero_id ↦ inr (
    rw zero_id (
        items-Granted p (grant_loot p item_id count gold) item_id count gold
          (grant-items p item_id count gold) (gold_of-grant p item_id count gold)),
    inl (ground arith, rw zero_id (grant-txs p item_id count gold)),
  )
  | inr real ↦ elim (Bool-cases (contains_tx p.committed_loot_txs tx_id)) [
    | inl old ↦ inl (ground arith, old, commit_again p tx_id item_id count gold (ground arith) old)
    | inr new ↦
        let txs = remember_tx p.committed_loot_txs tx_id in
        let p' : PlayerActor = record p { committed_loot_txs = txs } in
        inr (
          rw (real, new)
              (items-Granted p (grant_loot p' item_id count gold) item_id count gold
                (grant-items p' item_id count gold)
                (gold_of-grant p' item_id count gold
                  ∙ ap (λ g. (g + gold) % u32_mod) (gold_of-txs p txs))),
          inr (
            ground arith,
            new,
            λ few.
                ap (λ xs. contains_tx xs tx_id)
                  (commit-txs p tx_id item_id count gold (ground arith) new)
                ∙ remember-contains p.committed_loot_txs tx_id few,
          ),
        )
  ]
]

-- ===== src/Player/Loot/Once.antt =====
-- Repeated commits of a loot transaction, before and after the set of committed ones is cleared.
use new_server.Prelude.{
  ℕ, ◌+◌, ◌%◌, ◌≤◌, ◌<◌, ◌≡◌, refl, ap, ◌∙◌, ◌≢◌, inl, inr, true, false, ◌&&◌, not, List, [], arith,
  length, ◌==◌, Bool-cases, u32_mod, nat_eq,
}
use new_server.Player.{
  PlayerActor, mutable_core_state, add_gold, sync_projection_from_core_state,
  sync_combat_projection_from_authoritative, clamp_current, mark_hot_dirty,
}
use new_server.Player.Loot.{add_item, contains_tx, remember_tx, grant_loot, commit_loot}

pub gold_of : PlayerActor → ℕ
gold_of p = (mutable_core_state p).hot.resources.gold

add_gold-txs : (p : PlayerActor) (g : ℕ) → (add_gold p g).committed_loot_txs ≡ p.committed_loot_txs
unfolding add_gold sync_projection_from_core_state sync_combat_projection_from_authoritative
add_gold-txs p g = refl

pub grant-txs :
    (p : PlayerActor) (item_id count gold : ℕ)
    → (grant_loot p item_id count gold).committed_loot_txs ≡ p.committed_loot_txs
unfolding grant_loot
grant-txs p item_id count gold = elim (Bool-cases (not (item_id == 0) && not (count == 0))) [
  | inl e ↦ rw e (add_gold-txs (record p { items = add_item p.items item_id count }) gold)
  | inr e ↦ rw e (add_gold-txs p gold)
]

gold_of-add_gold : (p : PlayerActor) (g : ℕ) → gold_of (add_gold p g) ≡ (gold_of p + g) % u32_mod
unfolding gold_of add_gold mutable_core_state sync_projection_from_core_state
    sync_combat_projection_from_authoritative clamp_current mark_hot_dirty
gold_of-add_gold p g = refl

pub gold_of-grant :
    (p : PlayerActor) (item_id count gold : ℕ)
    → gold_of (grant_loot p item_id count gold) ≡ (gold_of p + gold) % u32_mod
unfolding grant_loot gold_of mutable_core_state
gold_of-grant p item_id count gold = elim (Bool-cases (not (item_id == 0) && not (count == 0))) [
  | inl e ↦ rw e (gold_of-add_gold (record p { items = add_item p.items item_id count }) gold)
  | inr e ↦ rw e (gold_of-add_gold p gold)
]

pub gold_of-txs :
    (p : PlayerActor) (txs : List ℕ) → gold_of (record p { committed_loot_txs = txs }) ≡ gold_of p
unfolding gold_of mutable_core_state
gold_of-txs p txs = refl

-- What the first commit remembers.
pub commit-txs :
    (p : PlayerActor) (tx_id item_id count gold : ℕ)
    → tx_id ≢ 0
    → contains_tx p.committed_loot_txs tx_id ≡ false
    → (commit_loot p tx_id item_id count gold).committed_loot_txs
      ≡ remember_tx p.committed_loot_txs tx_id
unfolding commit_loot
commit-txs p tx_id item_id count gold real new =
    let not_zero : (tx_id == 0) ≡ false = ground arith in
    rw (not_zero, new)
      (grant-txs (record p { committed_loot_txs = remember_tx p.committed_loot_txs tx_id }) item_id
        count gold)

pub commit_again :
    (p : PlayerActor) (tx_id item_id count gold : ℕ)
    → tx_id ≢ 0
    → contains_tx p.committed_loot_txs tx_id ≡ true
    → commit_loot p tx_id item_id count gold ≡ p
unfolding commit_loot
commit_again p tx_id item_id count gold real old =
    let not_zero : (tx_id == 0) ≡ false = ground arith in rw (not_zero, old) refl

pub remember-contains :
    (txs : List ℕ) (tx_id : ℕ)
    → length txs < 2048
    → contains_tx (remember_tx txs tx_id) tx_id ≡ true
unfolding remember_tx contains_tx
remember-contains txs tx_id h = ground arith

-- For a transaction id that is not zero and fewer than 2048 committed transactions: once it is
-- committed, a commit of the same id, whatever it grants, changes nothing.
pub commit_twice :
    (p : PlayerActor) (tx_id item_id count gold item_id' count' gold' : ℕ)
    → tx_id ≢ 0
    → length p.committed_loot_txs < 2048
    → commit_loot (commit_loot p tx_id item_id count gold) tx_id item_id' count' gold'
      ≡ commit_loot p tx_id item_id count gold
commit_twice p tx_id item_id count gold item_id' count' gold' real few =
    let q = commit_loot p tx_id item_id count gold in
    commit_again q tx_id item_id' count' gold' real
      (elim (Bool-cases (contains_tx p.committed_loot_txs tx_id)) [
        | inl old ↦
            ap (λ r. contains_tx r.committed_loot_txs tx_id)
              (commit_again p tx_id item_id count gold real old)
            ∙ old
        | inr new ↦
            ap (λ txs. contains_tx txs tx_id) (commit-txs p tx_id item_id count gold real new)
            ∙ remember-contains p.committed_loot_txs tx_id few
      ])

commit-gold :
    (p : PlayerActor) (tx_id item_id count gold : ℕ)
    → tx_id ≢ 0
    → contains_tx p.committed_loot_txs tx_id ≡ false
    → gold_of (commit_loot p tx_id item_id count gold) ≡ (gold_of p + gold) % u32_mod
unfolding commit_loot gold_of mutable_core_state
commit-gold p tx_id item_id count gold real new =
    let not_zero : (tx_id == 0) ≡ false = ground arith in
    rw (not_zero, new)
      (gold_of-grant (record p { committed_loot_txs = remember_tx p.committed_loot_txs tx_id })
        item_id count gold)

remember-clears : (txs : List ℕ) (tx_id : ℕ) → 2048 ≤ length txs → remember_tx txs tx_id ≡ []
unfolding remember_tx
remember-clears txs tx_id h = ground arith

-- For a transaction id that is not zero and not yet committed, at 2048 committed transactions or
-- more: the commit pays the gold and forgets every transaction, its own too, so a commit of the same
-- id pays the gold a second time.
pub commit_paid_twice :
    (p : PlayerActor) (tx_id item_id count gold : ℕ)
    → tx_id ≢ 0
    → contains_tx p.committed_loot_txs tx_id ≡ false
    → 2048 ≤ length p.committed_loot_txs
    → let once = commit_loot p tx_id item_id count gold in
      let twice = commit_loot once tx_id item_id count gold in
      (once.committed_loot_txs ≡ [])
      × (gold_of once ≡ (gold_of p + gold) % u32_mod)
      × (gold_of twice ≡ (gold_of once + gold) % u32_mod)
unfolding contains_tx
commit_paid_twice p tx_id item_id count gold real new many =
    let once = commit_loot p tx_id item_id count gold in
    let cleared : once.committed_loot_txs ≡ [] =
      commit-txs p tx_id item_id count gold real new
      ∙ remember-clears p.committed_loot_txs tx_id many in
    (
      cleared,
      commit-gold p tx_id item_id count gold real new,
      commit-gold once tx_id item_id count gold real (ap (λ txs. contains_tx txs tx_id) cleared),
    )

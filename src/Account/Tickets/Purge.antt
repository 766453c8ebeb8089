-- ===== src/Account/Tickets/Purge.antt =====
-- What the removal of old tickets, and of a world's tickets, takes and leaves.
use new_server.Prelude.{
  ℕ, ◌-◌, ◌≤◌, ◌≡◌, ◌↔◌, Bool, false, some, List, arith, Map, erase_if, erase_if_iff, leb, ◌==◌,
  nat_eq, bytes_eq,
}
use new_server.Account.Types.{ConsumedWorldTicketAwaitingNotify, Timeouts, PendingWorldTicketUpsert}
use new_server.Account.Tickets.{
  TicketTables, erase_pending_world_tickets_for_server, expire_pending_world_tickets,
}

-- The tickets that two tests name are gone, and every other one is as it was.
pub record PurgedBy (old_pending : PendingWorldTicketUpsert → Type 0)
    (old_consumed : ConsumedWorldTicketAwaitingNotify → Type 0) (t t' : TicketTables) : Type 0 where
  pub pending :
      (token : List ℕ) (p : PendingWorldTicketUpsert)
      → (t'.pending_world_upserts token ≡ some p)
        ↔ ((t.pending_world_upserts token ≡ some p) × ¬ old_pending p)
  pub consumed :
      (token : List ℕ) (c : ConsumedWorldTicketAwaitingNotify)
      → (t'.consumed_world_enters_awaiting_notify token ≡ some c)
        ↔ ((t.consumed_world_enters_awaiting_notify token ≡ some c) × ¬ old_consumed c)

-- The test of a loop is false exactly where a proposition fails.
erase_if-Kept {ℓ} :
    {V : Type ℓ} (test : V → Bool) (Old : V → Type 0) (m : Map (List ℕ) V) (k : List ℕ) (v : V)
    → ((test v ≡ false) ↔ ¬ Old v)
    → (erase_if test m k ≡ some v) ↔ ((m k ≡ some v) × ¬ Old v)
erase_if-Kept test Old m k v same =
    let (to, from) = erase_if_iff test m k v in
    ((λ h. ((to h).0, same.0 (to h).1)), λ h. from (h.0, same.1 h.1))

-- The tick drops the pending and the consumed tickets that have waited as long as their limit or
-- longer, and no other.
pub expire-PurgedBy :
    (timeouts : Timeouts) (t : TicketTables) (now : ℕ)
    → PurgedBy
        (λ p. timeouts.pending_world_upserts_expire ≤ now - p.issued_at)
        (λ c. timeouts.consumed_world_enters_awaiting_notify_expire ≤ now - c.consumed_at)
        t
        (expire_pending_world_tickets timeouts t now)
unfolding expire_pending_world_tickets
expire-PurgedBy timeouts t now = record {
  pending = λ token p.
      erase_if-Kept (λ x. leb timeouts.pending_world_upserts_expire (now - x.issued_at))
        (λ x. timeouts.pending_world_upserts_expire ≤ now - x.issued_at) t.pending_world_upserts
        token p (ground arith);
  consumed = λ token c.
      erase_if-Kept
        (λ x. leb timeouts.consumed_world_enters_awaiting_notify_expire (now - x.consumed_at))
        (λ x. timeouts.consumed_world_enters_awaiting_notify_expire ≤ now - x.consumed_at)
        t.consumed_world_enters_awaiting_notify token c (ground arith);
}

pub erase-PurgedBy :
    (t : TicketTables) (world_id : ℕ)
    → PurgedBy
        (λ p. p.target_world_id ≡ world_id)
        (λ c. c.target_world_id ≡ world_id)
        t
        (erase_pending_world_tickets_for_server t world_id)
unfolding erase_pending_world_tickets_for_server
erase-PurgedBy t world_id = record {
  pending = λ token p.
      erase_if-Kept (λ x. x.target_world_id == world_id) (λ x. x.target_world_id ≡ world_id)
        t.pending_world_upserts token p (ground arith);
  consumed = λ token c.
      erase_if-Kept (λ x. x.target_world_id == world_id) (λ x. x.target_world_id ≡ world_id)
        t.consumed_world_enters_awaiting_notify token c (ground arith);
}

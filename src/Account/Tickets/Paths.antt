-- ===== src/Account/Tickets/Paths.antt =====
-- Sequences of the operations on the tickets, as a relation: which tables can come of which.
use new_server.Prelude.{ℕ, Option, List}
use new_server.Account.Tickets.{
  erase_pending_world_tickets_for_server, expire_pending_world_tickets, forget_consumed,
  consume_issued_world_ticket, issue_ticket, TicketTables,
}
use new_server.Account.Types.{PendingWorldTicketUpsert, Timeouts}

-- The tables that operations lead to; each ticket that is issued on the way satisfies `Issued`.
pub data TicketPath (timeouts : Timeouts) (Issued : PendingWorldTicketUpsert → Type 0)
    (t : TicketTables) : TicketTables → Type 0 where
  stay : TicketPath timeouts Issued t t
  issue :
      (u : TicketTables) (p : PendingWorldTicketUpsert)
      → Issued p
      → TicketPath timeouts Issued t u
      → TicketPath timeouts Issued t (issue_ticket u p)
  consume :
      (u : TicketTables) (sender : Option ℕ) (trace_id account_id : ℕ)
      (login_session world_token : List ℕ) (now : ℕ)
      → TicketPath timeouts Issued t u
      → TicketPath timeouts Issued t
          (consume_issued_world_ticket timeouts u sender trace_id account_id login_session
            world_token now).tables
  forget :
      (u : TicketTables) (world_token : List ℕ)
      → TicketPath timeouts Issued t u
      → TicketPath timeouts Issued t (forget_consumed u world_token)
  expire :
      (u : TicketTables) (now : ℕ)
      → TicketPath timeouts Issued t u
      → TicketPath timeouts Issued t (expire_pending_world_tickets timeouts u now)
  erase_world :
      (u : TicketTables) (world_id : ℕ)
      → TicketPath timeouts Issued t u
      → TicketPath timeouts Issued t (erase_pending_world_tickets_for_server u world_id)

module _ (timeouts : Timeouts) (Issued : PendingWorldTicketUpsert → Type 0) where
  pub path_trans :
      (t u v : TicketTables)
      → TicketPath timeouts Issued t u
      → TicketPath timeouts Issued u v
      → TicketPath timeouts Issued t v
  path_trans t u v h stay = h
  path_trans t u v h (issue w p i k) = issue w p i (path_trans t u w h k)
  path_trans t u v h (consume w s a b c d n k) = consume w s a b c d n (path_trans t u w h k)
  path_trans t u v h (forget w c k) = forget w c (path_trans t u w h k)
  path_trans t u v h (expire w n k) = expire w n (path_trans t u w h k)
  path_trans t u v h (erase_world w i k) = erase_world w i (path_trans t u w h k)

  -- What each operation keeps.
  pub record Keeps (P : TicketTables → Type 0) : Type 0 where
    pub on_issue :
        (u : TicketTables) (p : PendingWorldTicketUpsert) → Issued p → P u → P (issue_ticket u p)
    pub on_consume :
        (u : TicketTables) (sender : Option ℕ) (trace_id account_id : ℕ)
        (login_session world_token : List ℕ) (now : ℕ)
        → P u
        → P
            (consume_issued_world_ticket timeouts u sender trace_id account_id login_session
              world_token now).tables
    pub on_forget :
        (u : TicketTables) (world_token : List ℕ) → P u → P (forget_consumed u world_token)
    pub on_expire :
        (u : TicketTables) (now : ℕ) → P u → P (expire_pending_world_tickets timeouts u now)
    pub on_erase :
        (u : TicketTables) (world_id : ℕ)
        → P u
        → P (erase_pending_world_tickets_for_server u world_id)

  pub path_keeps :
      (P : TicketTables → Type 0) (t u : TicketTables)
      → Keeps P
      → P t
      → TicketPath timeouts Issued t u
      → P u
  path_keeps P t u k h stay = h
  path_keeps P t u k h (issue w p i s) = k.on_issue w p i (path_keeps P t w k h s)
  path_keeps P t u k h (consume w s a b c d n l) =
      k.on_consume w s a b c d n (path_keeps P t w k h l)
  path_keeps P t u k h (forget w c s) = k.on_forget w c (path_keeps P t w k h s)
  path_keeps P t u k h (expire w n s) = k.on_expire w n (path_keeps P t w k h s)
  path_keeps P t u k h (erase_world w i s) = k.on_erase w i (path_keeps P t w k h s)

-- ===== src/Account/Tickets.antt =====
-- The tickets for entering a world (src/services/account/runtime/account_line_runtime.cpp): issued to
-- a login session, consumed by the world that they name, and dropped with age or with their world.
pub mod Consume
pub mod Paths
pub mod Purge
use new_server.Prelude.{
  ℕ, ◌-◌, Bool, ◌&&◌, ◌||◌, not, Option, none, some, List, Map, put, erase, erase_if, leb,
  if◌then◌else◌, ◌==◌, nat_eq, bytes_eq,
}
use new_server.Account.Types.{
  ok, account_mismatch, replay_detected, login_session_mismatch, world_server_mismatch,
  token_not_found, expired, no_consumed, PendingWorldTicketUpsert, Timeouts,
  ConsumedWorldTicketAwaitingNotify, ConsumePendingWorldAuthTicketResultKind,
}

pub record TicketTables : Type 0 where
  pub pending_world_upserts : Map (List ℕ) PendingWorldTicketUpsert
  pub consumed_world_enters_awaiting_notify : Map (List ℕ) ConsumedWorldTicketAwaitingNotify

unfoldable pub erase_pending_world_tickets_for_server : TicketTables → ℕ → TicketTables
erase_pending_world_tickets_for_server t world_id = record {
  pending_world_upserts = erase_if (λ p. p.target_world_id == world_id) t.pending_world_upserts;
  consumed_world_enters_awaiting_notify =
      erase_if (λ c. c.target_world_id == world_id) t.consumed_world_enters_awaiting_notify;
}

unfoldable pub issue_ticket : TicketTables → PendingWorldTicketUpsert → TicketTables
issue_ticket t pending = record t {
  pending_world_upserts = put t.pending_world_upserts pending.world_token pending;
}

unfoldable pub to_consumed : PendingWorldTicketUpsert → ℕ → ℕ → ConsumedWorldTicketAwaitingNotify
to_consumed p trace_id now = record {
  trace_id = if p.trace_id == 0 then trace_id else p.trace_id;
  request_id = p.request_id;
  login_sid = p.login_sid;
  login_serial = p.login_serial;
  target_world_id = p.target_world_id;
  account_id = p.account_id;
  char_id = p.char_id;
  login_session = p.login_session;
  world_token = p.world_token;
  world_host = p.world_host;
  world_port = p.world_port;
  consumed_at = now;
}

-- The answer where no ticket is pending under the token.
unfoldable pub missing_ticket : TicketTables → List ℕ → ConsumePendingWorldAuthTicketResultKind
missing_ticket t world_token = elim (t.consumed_world_enters_awaiting_notify world_token) [
  | none ↦ token_not_found
  | some c ↦ replay_detected
]

-- The ticket moves from the pending ones to those that wait for the notify.
unfoldable pub move_ticket :
    TicketTables → List ℕ → ConsumedWorldTicketAwaitingNotify → TicketTables
move_ticket t world_token consumed = record {
  consumed_world_enters_awaiting_notify =
      put t.consumed_world_enters_awaiting_notify consumed.world_token consumed;
  pending_world_upserts = erase t.pending_world_upserts world_token;
}

pub record ConsumeOutcome : Type 0 where
  pub tables : TicketTables
  pub kind : ConsumePendingWorldAuthTicketResultKind
  pub consumed : ConsumedWorldTicketAwaitingNotify

unfoldable pub refuse : TicketTables → ConsumePendingWorldAuthTicketResultKind → ConsumeOutcome
refuse t kind = record { tables = t; kind = kind; consumed = no_consumed }

unfoldable pub expire_ticket : TicketTables → List ℕ → TicketTables
expire_ticket t world_token = record t {
  pending_world_upserts = erase t.pending_world_upserts world_token;
}

module _ (timeouts : Timeouts) where
  -- The checks on a pending ticket, in their order.
  unfoldable pub consume_pending :
      TicketTables → ℕ → ℕ → ℕ → List ℕ → List ℕ → ℕ → PendingWorldTicketUpsert → ConsumeOutcome
  consume_pending t sender_world_id trace_id account_id login_session world_token now p =
      if leb timeouts.account_world_expire (now - p.issued_at)
      then refuse (expire_ticket t world_token) expired
      else if not (p.login_session == login_session)
      then refuse t login_session_mismatch
      else if not (p.account_id == account_id)
      then refuse t account_mismatch
      else if not (p.target_world_id == sender_world_id)
      then refuse t world_server_mismatch
      else record {
        tables = move_ticket t world_token (to_consumed p trace_id now);
        kind = ok;
        consumed = to_consumed p trace_id now;
      }

  -- `ConsumeIssuedWorldTicket_`; the sender's world is what the registry resolves.
  unfoldable pub consume_issued_world_ticket :
      TicketTables → Option ℕ → ℕ → ℕ → List ℕ → List ℕ → ℕ → ConsumeOutcome
  consume_issued_world_ticket t sender trace_id account_id login_session world_token now =
      elim sender [
        | none ↦ refuse t world_server_mismatch
        | some sender_world_id ↦ elim (t.pending_world_upserts world_token) [
          | none ↦ refuse t (missing_ticket t world_token)
          | some p ↦
              consume_pending t sender_world_id trace_id account_id login_session world_token now p
        ]
      ]

  unfoldable pub expire_pending_world_tickets : TicketTables → ℕ → TicketTables
  expire_pending_world_tickets t now = record {
    pending_world_upserts =
        erase_if (λ p. leb timeouts.pending_world_upserts_expire (now - p.issued_at))
          t.pending_world_upserts;
    consumed_world_enters_awaiting_notify =
        erase_if
          (λ c. leb timeouts.consumed_world_enters_awaiting_notify_expire (now - c.consumed_at))
          t.consumed_world_enters_awaiting_notify;
  }

-- The test of a notify against a consumed ticket.
unfoldable pub notify_matches : ConsumedWorldTicketAwaitingNotify → ℕ → ℕ → ℕ → ℕ → List ℕ → Bool
notify_matches c sender_world_id trace_id account_id char_id login_session =
    (trace_id == 0 || c.trace_id == trace_id)
    && c.account_id == account_id
    && c.char_id == char_id
    && c.login_session == login_session
    && c.target_world_id == sender_world_id

unfoldable pub try_match_consumed_world_enter_success_notify :
    TicketTables → Option ℕ → ℕ → ℕ → ℕ → List ℕ → List ℕ → Option ConsumedWorldTicketAwaitingNotify
try_match_consumed_world_enter_success_notify t sender trace_id account_id char_id login_session
      world_token =
    elim sender [
      | none ↦ none
      | some sender_world_id ↦ elim (t.consumed_world_enters_awaiting_notify world_token) [
        | none ↦ none
        | some c ↦
            if notify_matches c sender_world_id trace_id account_id char_id login_session
            then some c
            else none
      ]
    ]

unfoldable pub forget_consumed : TicketTables → List ℕ → TicketTables
forget_consumed t world_token = record t {
  consumed_world_enters_awaiting_notify = erase t.consumed_world_enters_awaiting_notify world_token;
}

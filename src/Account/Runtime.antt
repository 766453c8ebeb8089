-- ===== src/Account/Runtime.antt =====
-- `AccountLineRuntime` (src/services/account/runtime/account_line_runtime.cpp): the handlers of the
-- login and world lines, with what they send. A handler that reads the clock takes the reading; one
-- that sends and tests the result takes that result.
use new_server.Prelude.{
  ℕ, Bool, true, false, ◌&&◌, not, Option, none, some, List, [], ◌∷◌, Map, if◌then◌else◌, ◌==◌,
  nat_eq, bytes_eq,
}
use new_server.Account.Messages.{
  ticket_consume_response, world_register_ack, world_enter_success_notify, login_register_ack,
  Message,
}
use new_server.Account.Registry.{
  try_resolve_registered_world_id, on_world_route_disconnected, on_world_server_hello,
  WorldRegistry,
}
use new_server.Account.Tickets.{
  ConsumeOutcome, forget_consumed, erase_pending_world_tickets_for_server,
  expire_pending_world_tickets, consume_issued_world_ticket, TicketTables,
  try_match_consumed_world_enter_success_notify,
}
use new_server.Account.Types.{
  LoginCharacterSession, ConsumePendingWorldAuthTicketResultKind, Timeouts,
  ConsumedWorldTicketAwaitingNotify,
}
use new_server.Session.Key.{is_same_session_key}

pub record AccountLineRuntime : Type 0 where
  pub login_sid : ℕ
  pub login_serial : ℕ
  pub login_ready : Bool
  -- whether `login_handler_` and `world_handler_` are set
  pub login_handler : Bool
  pub world_handler : Bool
  pub worlds : WorldRegistry
  pub tickets : TicketTables
  pub login_character_sessions : Map (List ℕ) LoginCharacterSession

unfoldable pub on_login_coordinator_registered :
    AccountLineRuntime → ℕ → ℕ → AccountLineRuntime × List Message
on_login_coordinator_registered r sid serial = (
  record r { login_sid = sid; login_serial = serial; login_ready = true },
  if r.login_handler then login_register_ack sid serial ∷ [] else [],
)

unfoldable pub on_login_coordinator_disconnected : AccountLineRuntime → ℕ → ℕ → AccountLineRuntime
on_login_coordinator_disconnected r sid serial =
    if not (r.login_sid == 0) && not (is_same_session_key r.login_sid r.login_serial sid serial)
    then r
    else record r { login_ready = false; login_sid = 0; login_serial = 0 }

unfoldable pub hello :
    AccountLineRuntime → ℕ → ℕ → List ℕ → List ℕ → ℕ → ℕ → AccountLineRuntime × List Message
hello r sid serial server_name public_host public_port now =
    let h = on_world_server_hello r.worlds sid serial server_name public_host public_port now in
    (
      record r { worlds = h.0 },
      if r.world_handler then world_register_ack sid serial h.1 ∷ [] else [],
    )

-- The tickets of the world that a removed route stood for.
unfoldable pub erase_tickets_of : TicketTables → Option ℕ → TicketTables
erase_tickets_of t none = t
erase_tickets_of t (some world_id) =
    if world_id == 0 then t else erase_pending_world_tickets_for_server t world_id

unfoldable pub world_disconnected : AccountLineRuntime → ℕ → ℕ → AccountLineRuntime
world_disconnected r sid serial =
    let d = on_world_route_disconnected r.worlds sid serial in
    record r { worlds = d.0; tickets = erase_tickets_of r.tickets d.1 }

-- `result_code == Ok ? consumed.trace_id : trace_id`
unfoldable pub answered_trace : ConsumePendingWorldAuthTicketResultKind → ℕ → ℕ → ℕ
answered_trace kind consumed trace_id = elim kind [
  | ConsumePendingWorldAuthTicketResultKind.ok ↦ consumed
  | _ ↦ trace_id
]

unfoldable pub consume_response : ℕ → ℕ → ℕ → ℕ → ConsumeOutcome → Message
consume_response sid serial trace_id request_id o =
    ticket_consume_response sid serial (answered_trace o.kind o.consumed.trace_id trace_id)
      request_id o.kind o.consumed.account_id o.consumed.char_id o.consumed.login_session
      o.consumed.world_token

module _ (timeouts : Timeouts) where
  unfoldable pub on_world_ticket_consume_request :
      AccountLineRuntime
      → ℕ
      → ℕ
      → ℕ
      → ℕ
      → ℕ
      → List ℕ
      → List ℕ
      → ℕ
      → AccountLineRuntime × List Message
  on_world_ticket_consume_request r sid serial trace_id request_id account_id login_session
        world_token now =
      let o =
        consume_issued_world_ticket timeouts r.tickets
          (try_resolve_registered_world_id r.worlds sid serial) trace_id account_id login_session
          world_token now in
      if r.world_handler
      then (record r { tickets = o.tables }, consume_response sid serial trace_id request_id o ∷ [])
      else (r, [])

  unfoldable pub tick_tickets : AccountLineRuntime → ℕ → AccountLineRuntime
  tick_tickets r now = record r { tickets = expire_pending_world_tickets timeouts r.tickets now }

-- The relay of a matched notify, with the result of the send.
unfoldable pub relay_notify :
    AccountLineRuntime
    → ConsumedWorldTicketAwaitingNotify
    → ℕ
    → ℕ
    → List ℕ
    → List ℕ
    → Bool
    → AccountLineRuntime × List Message
relay_notify r c account_id char_id login_session world_token sent =
    let message =
      world_enter_success_notify r.login_sid r.login_serial c.trace_id account_id char_id
        login_session world_token in
    if not (r.login_ready && r.login_handler)
    then (r, [])
    else if not sent
    then (r, [])
    else (record r { tickets = forget_consumed r.tickets world_token }, message ∷ [])

unfoldable pub on_world_enter_success_notify :
    AccountLineRuntime
    → ℕ
    → ℕ
    → ℕ
    → ℕ
    → ℕ
    → List ℕ
    → List ℕ
    → Bool
    → AccountLineRuntime × List Message
on_world_enter_success_notify r sid serial trace_id account_id char_id login_session world_token
      sent =
    elim (try_match_consumed_world_enter_success_notify r.tickets
      (try_resolve_registered_world_id r.worlds sid serial) trace_id account_id char_id
      login_session world_token) [
        | none ↦ (r, [])
        | some c ↦ relay_notify r c account_id char_id login_session world_token sent
      ]

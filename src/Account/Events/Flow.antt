-- ===== src/Account/Events/Flow.antt =====
-- From a pending ticket to the notify that the login line receives.
use new_server.Prelude.{
  ℕ, ◌≡◌, refl, ap, ◌∙◌, Bool, true, none, some, List, [], ◌∷◌, arith, nat_beq_iff, ◌==◌,
  bytes_beq_iff, nat_eq, bytes_eq,
}
use new_server.Account.Events.{enter_success, ticket_consume, handle}
use new_server.Account.Messages.{Message, ticket_consume_response, world_enter_success_notify}
use new_server.Account.Registry.{try_resolve_registered_world_id}
use new_server.Account.Tickets.Consume.{consume-moves, Accepted}
use new_server.Account.Types.{
  ok, ConsumedWorldTicketAwaitingNotify, PendingWorldTicketUpsert, Timeouts,
}
use new_server.Account.Tickets.{
  ConsumeOutcome, consume_issued_world_ticket, move_ticket, forget_consumed, notify_matches,
  try_match_consumed_world_enter_success_notify, to_consumed,
}
use new_server.Account.Runtime.{
  answered_trace, consume_response, relay_notify, AccountLineRuntime, on_world_enter_success_notify,
  on_world_ticket_consume_request,
}

byte_self : (b : List ℕ) → (b == b) ≡ true
byte_self b = (bytes_beq_iff b b).1 refl

nat_self : (n : ℕ) → (n == n) ≡ true
nat_self n = (nat_beq_iff n n).1 refl

asked :
    (timeouts : Timeouts) (r : AccountLineRuntime) (sid serial trace_id request_id account_id : ℕ)
    (login_session token : List ℕ) (now : ℕ)
    → r.world_handler ≡ true
    → let o =
        consume_issued_world_ticket timeouts r.tickets
          (try_resolve_registered_world_id r.worlds sid serial)
          trace_id
          account_id
          login_session
          token
          now in
      on_world_ticket_consume_request timeouts r sid serial trace_id request_id account_id
        login_session token now
      ≡ (record r { tickets = o.tables }, consume_response sid serial trace_id request_id o ∷ [])
unfolding on_world_ticket_consume_request
asked timeouts r sid serial trace_id request_id account_id login_session token now there =
    ground arith

consume-step :
    (timeouts : Timeouts) (r : AccountLineRuntime) (sid serial trace_id request_id : ℕ)
    (token : List ℕ) (now : ℕ) (p : PendingWorldTicketUpsert)
    → r.world_handler ≡ true
    → Accepted timeouts r.tickets
        (try_resolve_registered_world_id r.worlds sid serial)
        trace_id
        p.account_id
        p.login_session
        token
        now
        p
    → let c = to_consumed p trace_id now in
      on_world_ticket_consume_request timeouts r sid serial trace_id request_id p.account_id
        p.login_session token now
      ≡ (
        record r { tickets = move_ticket r.tickets token c },
        ticket_consume_response sid serial c.trace_id request_id ok p.account_id p.char_id
              p.login_session p.world_token
            ∷ [],
      )
unfolding consume_response answered_trace to_consumed
consume-step timeouts r sid serial trace_id request_id token now p there a =
    let sender = try_resolve_registered_world_id r.worlds sid serial in
    let answer : ConsumeOutcome → AccountLineRuntime × List Message = λ o.
      (record r { tickets = o.tables }, consume_response sid serial trace_id request_id o ∷ []) in
    asked timeouts r sid serial trace_id request_id p.account_id p.login_session token now there
    ∙ ap answer (
        consume-moves timeouts r.tickets sender trace_id p.account_id p.login_session token now p a)

notify-step :
    (r : AccountLineRuntime) (sid serial : ℕ) (token : List ℕ)
    (c : ConsumedWorldTicketAwaitingNotify)
    → r.login_ready ≡ true
    → r.login_handler ≡ true
    → try_resolve_registered_world_id r.worlds sid serial ≡ some c.target_world_id
    → r.tickets.consumed_world_enters_awaiting_notify token ≡ some c
    → on_world_enter_success_notify r sid serial c.trace_id c.account_id c.char_id c.login_session
        token true
      ≡ (
        record r { tickets = forget_consumed r.tickets token },
        world_enter_success_notify r.login_sid r.login_serial c.trace_id c.account_id c.char_id
              c.login_session token
            ∷ [],
      )
unfolding on_world_enter_success_notify try_match_consumed_world_enter_success_notify notify_matches
    relay_notify
notify-step r sid serial token c ready there from held = ground (arith, byte_self c.login_session)

notify-again :
    (r : AccountLineRuntime) (sid serial trace_id account_id char_id : ℕ)
    (login_session token : List ℕ) (sent : Bool)
    → r.tickets.consumed_world_enters_awaiting_notify token ≡ none
    → on_world_enter_success_notify r sid serial trace_id account_id char_id login_session token
        sent
      ≡ (r, [])
unfolding on_world_enter_success_notify try_match_consumed_world_enter_success_notify
notify-again r sid serial trace_id account_id char_id login_session token sent gone = ground arith

-- A pending ticket that its world consumes in time, with the ticket's account and session, is
-- answered `ok`; the success notify that follows is relayed to the login line, with the trace of the
-- ticket, when that line is ready and the send succeeds; and a second notify is answered by nothing.
pub enter_relayed :
    (timeouts : Timeouts) (r : AccountLineRuntime) (sid serial trace_id request_id : ℕ)
    (token : List ℕ) (now : ℕ) (p : PendingWorldTicketUpsert)
    → r.world_handler ≡ true
    → r.login_handler ≡ true
    → r.login_ready ≡ true
    → p.world_token ≡ token
    → Accepted timeouts r.tickets
        (try_resolve_registered_world_id r.worlds sid serial)
        trace_id
        p.account_id
        p.login_session
        token
        now
        p
    → let trace = (to_consumed p trace_id now).trace_id in
      let a =
        handle timeouts r
          (ticket_consume sid serial trace_id request_id p.account_id p.login_session token now) in
      let entered =
        enter_success sid serial trace p.account_id p.char_id p.login_session token true in
      let b = handle timeouts a.0 entered in
      (a.1
        ≡ ticket_consume_response sid serial trace request_id ok p.account_id p.char_id
            p.login_session p.world_token
          ∷ [])
      × (b.1
          ≡ world_enter_success_notify r.login_sid r.login_serial trace p.account_id p.char_id
              p.login_session token
            ∷ [])
      × ((handle timeouts b.0 entered).1 ≡ [])
unfolding handle move_ticket to_consumed forget_consumed
enter_relayed timeouts r sid serial trace_id request_id token now p wh lh ready named a =
    let c = to_consumed p trace_id now in
    let moved : AccountLineRuntime = record r { tickets = move_ticket r.tickets token c } in
    let left : AccountLineRuntime = record moved {
      tickets = forget_consumed moved.tickets token;
    } in
    let held : moved.tickets.consumed_world_enters_awaiting_notify token ≡ some c =
      rw (named, byte_self token) refl in
    let gone : left.tickets.consumed_world_enters_awaiting_notify token ≡ none =
      rw (byte_self token) refl in
    let first = consume-step timeouts r sid serial trace_id request_id token now p wh a in
    let second = notify-step moved sid serial token c ready lh a.by_target held in
    let third =
      notify-again left sid serial c.trace_id p.account_id p.char_id p.login_session token true
        gone in
    rw (first, second, third) (refl, refl, refl)

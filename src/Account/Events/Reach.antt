-- ===== src/Account/Events/Reach.antt =====
-- Every call of the account service changes the tickets by the operations on them.
use new_server.Prelude.{
  ℕ, ◌≡◌, sym, inl, inr, Bool, true, false, ◌&&◌, Option, none, some, List, [], ◌∷◌, arith,
  if◌then◌else◌, ◌==◌, bytes_beq_iff, Bool-cases, Option-cases, nat_eq, bytes_eq,
}
use new_server.Account.Login.{on_character_select_request}
use new_server.Account.Events.Authority.{select-Entitled}
use new_server.Account.Events.Kept.{
  world_characters-tickets, character_list-tickets, world_select-tickets, world_list-tickets,
  auth-tickets, login-tickets,
}
use new_server.Account.Tickets.Paths.{
  expire, issue, stay, consume, forget, erase_world, TicketPath, path_trans,
}
use new_server.Account.Registry.{on_world_route_disconnected, try_resolve_registered_world_id}
use new_server.Account.Tickets.{
  consume_issued_world_ticket, forget_consumed, try_match_consumed_world_enter_success_notify,
  TicketTables,
}
use new_server.Account.Runtime.{
  tick_tickets, world_disconnected, hello, on_login_coordinator_registered, AccountLineRuntime,
  on_world_enter_success_notify, relay_notify, on_world_ticket_consume_request, erase_tickets_of,
}
use new_server.Account.Events.{
  stale_routes, route_tick, ticket_tick, enter_success, ticket_consume, world_characters,
  character_list, world_select, world_list, auth_done, world_heartbeat, world_gone, world_ready,
  world_hello, login_disconnected, login_registered, expire_stale_world_routes, handle, Caller,
  character_select, erase_stale_tickets, Call,
}
use new_server.Account.Types.{
  ConsumedWorldTicketAwaitingNotify, RegisteredWorldEndpoint, PendingWorldTicketUpsert, Timeouts,
}

-- Whether a call issues a ticket under the token.
unfoldable pub issues : List ℕ → Call → Bool
issues token (character_select order caller account_id char_id login_session world_token now) =
    world_token == token
issues token _ = false

abbrev pub IssuedBy : Call → PendingWorldTicketUpsert → Type 0
IssuedBy c p = issues p.world_token c ≡ true

module _ (timeouts : Timeouts) where
  abbrev Leads : Call → TicketTables → TicketTables → Type 0
  Leads c = TicketPath timeouts (IssuedBy c)

  unchanged : (c : Call) (t u : TicketTables) → u ≡ t → Leads c t u
  unchanged c t u e = rw e stay

  erase_tickets-Leads :
      (c : Call) (t : TicketTables) (o : Option ℕ) → Leads c t (erase_tickets_of t o)
  unfolding erase_tickets_of
  erase_tickets-Leads c t none = stay
  erase_tickets-Leads c t (some w) = elim (Bool-cases (w == 0)) [
    | inl e ↦ rw e stay
    | inr e ↦ rw e (erase_world t w stay)
  ]

  erase_stale-Leads :
      (c : Call) (t : TicketTables) (stale : List (ℕ × RegisteredWorldEndpoint))
      → Leads c t (erase_stale_tickets t stale)
  unfolding erase_stale_tickets
  erase_stale-Leads c t [] = stay
  erase_stale-Leads c t ((sid, x) ∷ stale) =
      let u = erase_tickets_of t (some x.world_id) in
      path_trans timeouts (IssuedBy c) t u (erase_stale_tickets u stale)
        (erase_tickets-Leads c t (some x.world_id)) (erase_stale-Leads c u stale)

  along : (c : Call) (t u v : TicketTables) → u ≡ v → Leads c t v → Leads c t u
  along c t u v e h = rw e h

  branch :
      (c : Call) (b : Bool) (t x y : TicketTables)
      → Leads c t x
      → Leads c t y
      → Leads c t (if b then x else y)
  branch c true t x y h k = h
  branch c false t x y h k = k

  consume-tickets :
      (r : AccountLineRuntime) (sid serial trace_id request_id account_id : ℕ)
      (login_session world_token : List ℕ) (now : ℕ)
      → (on_world_ticket_consume_request timeouts r sid serial trace_id request_id account_id
          login_session world_token now).0.tickets
        ≡ (if r.world_handler
            then (consume_issued_world_ticket timeouts r.tickets
                (try_resolve_registered_world_id r.worlds sid serial)
                trace_id
                account_id
                login_session
                world_token
                now).tables
            else r.tickets)
  unfolding on_world_ticket_consume_request
  consume-tickets r sid serial trace_id request_id account_id login_session world_token now =
      ground arith

  consume-Leads :
      (c : Call) (r : AccountLineRuntime) (sid serial trace_id request_id account_id : ℕ)
      (login_session world_token : List ℕ) (now : ℕ)
      → Leads c r.tickets
          (on_world_ticket_consume_request timeouts r sid serial trace_id request_id account_id
            login_session world_token now).0.tickets
  consume-Leads c r sid serial trace_id request_id account_id login_session world_token now =
      let sender = try_resolve_registered_world_id r.worlds sid serial in
      rw (consume-tickets r sid serial trace_id request_id account_id login_session world_token now)
        (branch c r.world_handler r.tickets
          (consume_issued_world_ticket timeouts r.tickets sender trace_id account_id login_session
            world_token now).tables
          r.tickets
          (consume r.tickets sender trace_id account_id login_session world_token now stay) stay)

  relay-tickets :
      (r : AccountLineRuntime) (x : ConsumedWorldTicketAwaitingNotify) (account_id char_id : ℕ)
      (login_session world_token : List ℕ) (sent : Bool)
      → (relay_notify r x account_id char_id login_session world_token sent).0.tickets ≡ (
          if r.login_ready && r.login_handler && sent
          then forget_consumed r.tickets world_token
          else r.tickets)
  unfolding relay_notify
  relay-tickets r x account_id char_id login_session world_token sent = ground arith

  relay-Leads :
      (c : Call) (r : AccountLineRuntime) (x : ConsumedWorldTicketAwaitingNotify)
      (account_id char_id : ℕ) (login_session world_token : List ℕ) (sent : Bool)
      → Leads c r.tickets
          (relay_notify r x account_id char_id login_session world_token sent).0.tickets
  relay-Leads c r x account_id char_id login_session world_token sent =
      rw (relay-tickets r x account_id char_id login_session world_token sent) (
        branch c (r.login_ready && r.login_handler && sent) r.tickets
          (forget_consumed r.tickets world_token) r.tickets (forget r.tickets world_token stay)
          stay)

  notify-Leads :
      (c : Call) (r : AccountLineRuntime) (sid serial trace_id account_id char_id : ℕ)
      (login_session world_token : List ℕ) (sent : Bool)
      → Leads c r.tickets
          (on_world_enter_success_notify r sid serial trace_id account_id char_id login_session
            world_token sent).0.tickets
  unfolding on_world_enter_success_notify
  notify-Leads c r sid serial trace_id account_id char_id login_session world_token sent =
      elim (Option-cases (
        try_match_consumed_world_enter_success_notify r.tickets
          (try_resolve_registered_world_id r.worlds sid serial) trace_id account_id char_id
          login_session world_token)) [
            | inl e ↦ rw (e, on_world_enter_success_notify) stay
            | inr (x, e) ↦
                rw (e, on_world_enter_success_notify)
                  (relay-Leads c r x account_id char_id login_session world_token sent)
          ]

  select-Leads :
      (r : AccountLineRuntime) (order : List ℕ) (caller : Caller) (account_id char_id : ℕ)
      (login_session world_token : List ℕ) (now : ℕ)
      → let c = character_select order caller account_id char_id login_session world_token now in
        Leads c r.tickets
          (on_character_select_request r order caller account_id char_id login_session world_token
            now).0.tickets
  unfolding issues
  select-Leads r order caller account_id char_id login_session world_token now =
      elim (select-Entitled r order caller account_id char_id login_session world_token now) [
        | inl e ↦ rw e stay
        | inr (p, named, e, entitled) ↦
            rw e (issue r.tickets p ((bytes_beq_iff world_token p.world_token).1 (sym named)) stay)
      ]

  -- The tickets after a call come of those before it, and a ticket that was issued on the way is
  -- under a token for which the call issues one.
  pub handle-Leads :
      (c : Call) (r : AccountLineRuntime)
      → TicketPath timeouts (IssuedBy c) r.tickets (handle timeouts r c).0.tickets
  unfolding handle on_login_coordinator_registered hello world_disconnected tick_tickets
      expire_stale_world_routes
  handle-Leads (login_registered sid serial) r = stay
  handle-Leads (login_disconnected sid serial) r = rw (login-tickets r sid serial) stay
  handle-Leads (world_hello sid serial name host port now) r = stay
  handle-Leads (world_ready sid serial world_id flags now) r = stay
  handle-Leads (world_gone sid serial) r =
      erase_tickets-Leads (world_gone sid serial) r.tickets
        (on_world_route_disconnected r.worlds sid serial).1
  handle-Leads (world_heartbeat sid serial world_id zones load flags now) r = stay
  handle-Leads (auth_done rr now) r = rw (auth-tickets r rr now) stay
  handle-Leads (world_list order caller account_id login_session) r =
      rw (world_list-tickets r order caller account_id login_session) stay
  handle-Leads (world_select order caller account_id world_id login_session now) r =
      rw (world_select-tickets r order caller account_id world_id login_session now) stay
  handle-Leads (character_list caller account_id world_id login_session sent) r =
      rw (character_list-tickets r caller account_id world_id login_session sent) stay
  handle-Leads (world_characters caller account_id count ok login_session characters why now) r =
      rw (world_characters-tickets r caller account_id count ok login_session characters why now)
        stay
  handle-Leads (character_select order caller account_id char_id login_session world_token now) r =
      select-Leads r order caller account_id char_id login_session world_token now
  handle-Leads (ticket_consume sid serial trace request account_id session token now) r =
      consume-Leads (ticket_consume sid serial trace request account_id session token now) r sid
        serial trace request account_id session token now
  handle-Leads (enter_success sid serial trace account_id char_id session token sent) r =
      notify-Leads (enter_success sid serial trace account_id char_id session token sent) r sid
        serial trace account_id char_id session token sent
  handle-Leads (ticket_tick now) r = expire r.tickets now stay
  handle-Leads (route_tick order now) r =
      erase_stale-Leads (route_tick order now) r.tickets (stale_routes timeouts r.worlds order now)

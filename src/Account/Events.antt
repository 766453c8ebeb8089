-- ===== src/Account/Events.antt =====
-- The calls that `AccountLineRuntime` receives, from the handlers of its two lines and from its own
-- tick (src/services/account/runtime/account_line_runtime.cpp), and their handling one after another.
pub mod Kept
pub mod Keyed
pub mod Reach
pub mod Once
pub mod Authority
pub mod Flow
use new_server.Prelude.{
  ℕ, ◌-◌, Bool, true, false, ◌&&◌, not, none, some, List, [], ◌∷◌, erase, ltb, if◌then◌else◌,
  nat_eq, bytes_eq,
}
use new_server.Account.Characters.{on_world_character_list_response, on_character_list_request}
use new_server.Account.Login.{
  on_character_select_request, on_world_select_request, on_world_list_request, put_session,
}
use new_server.Account.Messages.{
  no_fail_reason, remote, account_auth_result, close_world_session, Caller, Message,
}
use new_server.Account.Tickets.{TicketTables}
use new_server.Account.Runtime.{
  tick_tickets, on_world_enter_success_notify, on_world_ticket_consume_request, world_disconnected,
  hello, on_login_coordinator_disconnected, on_login_coordinator_registered, erase_tickets_of,
  AccountLineRuntime,
}
use new_server.Account.Types.{
  CharacterSummary, LoginCharacterSession, Timeouts, RegisteredWorldEndpoint,
}
use new_server.Account.Registry.{
  on_world_route_heartbeat, on_world_ready_notify, erase_world_index, WorldRegistry,
}
use new_server.Account.Jobs.{
  conflict, invalid_data, db_error, success, AccountAuthResult, ResultCode,
}

-- The routes that a walk finds without a heartbeat for too long.
unfoldable pub stale_routes :
    Timeouts → WorldRegistry → List ℕ → ℕ → List (ℕ × RegisteredWorldEndpoint)
stale_routes timeouts w [] now = []
stale_routes timeouts w (sid ∷ order) now =
    let rest = stale_routes timeouts w order now in
    elim (w.worlds_by_sid sid) [
      | none ↦ rest
      | some e ↦
          if ltb (now - e.last_heartbeat_at) timeouts.world_route_heartbeat_timeout
          then rest
          else (sid, e) ∷ rest
    ]

unfoldable pub erase_stale : WorldRegistry → List (ℕ × RegisteredWorldEndpoint) → WorldRegistry
erase_stale w [] = w
erase_stale w ((sid, e) ∷ stale) =
    erase_stale
      (record w {
        worlds_by_sid = erase w.worlds_by_sid sid;
        world_sid_by_world_id = erase_world_index w.world_sid_by_world_id e.world_id sid;
      })
      stale

unfoldable pub erase_stale_tickets :
    TicketTables → List (ℕ × RegisteredWorldEndpoint) → TicketTables
erase_stale_tickets t [] = t
erase_stale_tickets t ((sid, e) ∷ stale) =
    erase_stale_tickets (erase_tickets_of t (some e.world_id)) stale

unfoldable pub close_stale : List (ℕ × RegisteredWorldEndpoint) → List Message
close_stale [] = []
close_stale ((sid, e) ∷ stale) = close_world_session e.sid e.serial ∷ close_stale stale

unfoldable pub expire_stale_world_routes :
    Timeouts → AccountLineRuntime → List ℕ → ℕ → AccountLineRuntime × List Message
expire_stale_world_routes timeouts r order now =
    let stale = stale_routes timeouts r.worlds order now in
    (
      record r {
        worlds = erase_stale r.worlds stale;
        tickets = erase_stale_tickets r.tickets stale;
      },
      if r.world_handler then close_stale stale else [],
    )

unfoldable pub new_login_session : AccountAuthResult → ℕ → LoginCharacterSession
new_login_session rr now = record {
  trace_id = rr.trace_id;
  login_sid = rr.sid;
  login_serial = rr.serial;
  account_id = rr.account_id;
  selected_char_id = 0;
  selected_world_id = 0;
  selected_world_host = [];
  selected_world_port = 0;
  login_session = rr.login_session;
  cached_characters = [];
  updated_at = now;
}

unfoldable pub is_success_code : ResultCode → Bool
is_success_code success = true
is_success_code db_error = false
is_success_code invalid_data = false
is_success_code conflict = false

abbrev caller_of : AccountAuthResult → Caller
caller_of rr = record {
  sid = rr.sid;
  serial = rr.serial;
  trace_id = rr.trace_id;
  request_id = rr.request_id;
}

-- `HandleDqsResult_` for a login.
unfoldable pub handle_auth_result :
    AccountLineRuntime → AccountAuthResult → ℕ → AccountLineRuntime × List Message
handle_auth_result r rr now =
    if not r.login_handler
    then (r, [])
    else if not (rr.ok && is_success_code rr.result)
    then (r, account_auth_result (caller_of rr) false 0 [] (remote rr.fail_reason) ∷ [])
    else (
      put_session r rr.login_session (new_login_session rr now),
      account_auth_result (caller_of rr) true rr.account_id rr.login_session no_fail_reason ∷ [],
    )

-- The arguments of the calls. `order` is the order in which a container visits its keys.
pub data Call : Type 0 where
  login_registered : (sid serial : ℕ) → Call
  login_disconnected : (sid serial : ℕ) → Call
  world_hello : (sid serial : ℕ) → (server_name public_host : List ℕ) → (public_port now : ℕ) → Call
  world_ready : (sid serial world_id flags now : ℕ) → Call
  world_gone : (sid serial : ℕ) → Call
  world_heartbeat : (sid serial world_id active_zone_count load_score flags now : ℕ) → Call
  auth_done : AccountAuthResult → (now : ℕ) → Call
  world_list : (order : List ℕ) → Caller → (account_id : ℕ) → (login_session : List ℕ) → Call
  world_select :
      (order : List ℕ)
      → Caller
      → (account_id world_id : ℕ) → (login_session : List ℕ) → (now : ℕ) → Call
  character_list :
      Caller → (account_id world_id : ℕ) → (login_session : List ℕ) → (sent : Bool) → Call
  world_characters :
      Caller
      → (account_id count : ℕ) → (ok : Bool) → (login_session : List ℕ) → List CharacterSummary
      → (fail_reason : List ℕ) → (now : ℕ) → Call
  character_select :
      (order : List ℕ)
      → Caller
      → (account_id char_id : ℕ) → (login_session world_token : List ℕ) → (now : ℕ) → Call
  ticket_consume :
      (sid serial trace_id request_id account_id : ℕ)
      → (login_session world_token : List ℕ) → (now : ℕ) → Call
  enter_success :
      (sid serial trace_id account_id char_id : ℕ)
      → (login_session world_token : List ℕ) → (sent : Bool) → Call
  ticket_tick : (now : ℕ) → Call
  route_tick : (order : List ℕ) → (now : ℕ) → Call

unfoldable pub handle : Timeouts → AccountLineRuntime → Call → AccountLineRuntime × List Message
handle t r (login_registered sid serial) = on_login_coordinator_registered r sid serial
handle t r (login_disconnected sid serial) = (on_login_coordinator_disconnected r sid serial, [])
handle t r (world_hello sid serial name host port now) = hello r sid serial name host port now
handle t r (world_ready sid serial world_id flags now) =
    (record r { worlds = on_world_ready_notify r.worlds sid serial world_id flags now }, [])
handle t r (world_gone sid serial) = (world_disconnected r sid serial, [])
handle t r (world_heartbeat sid serial world_id zones load flags now) = (
  record r { worlds = on_world_route_heartbeat r.worlds sid serial world_id zones load flags now },
  [],
)
handle t r (auth_done rr now) = handle_auth_result r rr now
handle t r (world_list order caller account_id login_session) =
    on_world_list_request r order caller account_id login_session
handle t r (world_select order caller account_id world_id login_session now) =
    on_world_select_request r order caller account_id world_id login_session now
handle t r (character_list caller account_id world_id login_session sent) =
    on_character_list_request r caller account_id world_id login_session sent
handle t r (world_characters caller account_id count ok login_session characters fail_reason now) =
    on_world_character_list_response r caller account_id count ok login_session characters
      fail_reason now
handle t r (character_select order caller account_id char_id login_session world_token now) =
    on_character_select_request r order caller account_id char_id login_session world_token now
handle t r
      (ticket_consume sid serial trace_id request_id account_id login_session world_token now) =
    on_world_ticket_consume_request t r sid serial trace_id request_id account_id login_session
      world_token now
handle t r (enter_success sid serial trace_id account_id char_id login_session world_token sent) =
    on_world_enter_success_notify r sid serial trace_id account_id char_id login_session world_token
      sent
handle t r (ticket_tick now) = (tick_tickets t r now, [])
handle t r (route_tick order now) = expire_stale_world_routes t r order now

unfoldable pub handle_all : Timeouts → AccountLineRuntime → List Call → AccountLineRuntime
handle_all t r [] = r
handle_all t r (c ∷ calls) = handle_all t (handle t r c).0 calls

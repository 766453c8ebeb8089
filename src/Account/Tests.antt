-- ===== src/Account/Tests.antt =====
-- One world, one login and one ticket, and what the account service makes of them.
use new_server.Prelude.{
  ℕ, ◌-◌, ◌≤◌, ◌≡◌, refl, ◌≢◌, ◌↔◌, ◌⊎◌, true, none, some, List, [], ◌∷◌, arith, empty, put, nat_eq,
  bytes_eq,
}
use new_server.Account.Login.{
  put_session, new_ticket, character_selected, ticket_route, has_character, find_session,
  on_character_select_request,
}
use new_server.Account.Events.Flow.{enter_relayed}
use new_server.Account.Events.Keyed.{handle-KeyedBySid}
use new_server.Account.Events.Authority.{select-Entitled, Entitled}
use new_server.Account.Events.Reach.{issues}
use new_server.Account.Events.{
  world_gone, ticket_tick, handle_all, enter_success, world_hello, handle, ticket_consume,
}
use new_server.Account.Tickets.Consume.{Dropped, TooOld, consume_refused, consume_iff, Accepted}
use new_server.Account.Messages.{world_enter_success_notify, ticket_consume_response, Caller}
use new_server.Session.Key.{is_same_session_key, is_valid_session_key}
use new_server.Account.Events.Once.{consume_once, issues_any}
use new_server.Account.Registry.Hello.{hello-Registered, ready_stale_index, Registered}
use new_server.Account.Tickets.Purge.{expire-PurgedBy, PurgedBy}
use new_server.Account.Runtime.{AccountLineRuntime}
use new_server.Account.Types.{
  world_server_mismatch, expired, ok, release_timeouts, LoginCharacterSession,
  PendingWorldTicketUpsert, ConfiguredWorldEntry, RegisteredWorldEndpoint,
}
use new_server.Account.Tickets.{
  refuse, expire_pending_world_tickets, to_consumed, consume_pending, issue_ticket, TicketTables,
  consume_issued_world_ticket,
}
use new_server.Account.Registry.Routes.{KeyedBySid}
use new_server.Account.Registry.{
  on_world_server_hello, find_route, try_resolve_world_route_session_by_id, WorldRegistry,
  on_world_ready_notify, try_resolve_registered_world_id,
}

abbrev token : List ℕ
token = 55 ∷ 56 ∷ []

abbrev session : List ℕ
session = 115 ∷ 49 ∷ []

abbrev host : List ℕ
host = 119 ∷ 49 ∷ []

abbrev name : List ℕ
name = 119 ∷ []

abbrev ticket : PendingWorldTicketUpsert
ticket = record {
  trace_id = 11;
  request_id = 12;
  login_sid = 2;
  login_serial = 1;
  target_world_id = 3;
  account_id = 42;
  char_id = 77;
  login_session = session;
  world_token = token;
  world_host = host;
  world_port = 7000;
  issued_at = 1000;
}

abbrev world : ConfiguredWorldEntry
world = record { name = name; db_dns = []; db_id = []; db_pw = []; world_id = 3 }

abbrev route : RegisteredWorldEndpoint
route = record {
  sid = 5;
  serial = 9;
  world_id = 3;
  active_zone_count = 1;
  load_score = 10;
  flags = 3;
  server_name = name;
  public_host = host;
  public_port = 7000;
  ready = true;
  db_name = [];
  db_user = [];
  db_password = [];
  registered_at = 0;
  last_heartbeat_at = 0;
}

abbrev registry : WorldRegistry
registry = record {
  configured_worlds_by_name = put empty name world;
  worlds_by_sid = put empty 5 route;
  world_sid_by_world_id = put empty 3 5;
}

abbrev tables : TicketTables
tables = record {
  pending_world_upserts = put empty token ticket;
  consumed_world_enters_awaiting_notify = empty;
}

abbrev login : LoginCharacterSession
login = record {
  trace_id = 11;
  login_sid = 2;
  login_serial = 1;
  account_id = 42;
  selected_char_id = 0;
  selected_world_id = 3;
  selected_world_host = host;
  selected_world_port = 7000;
  login_session = session;
  cached_characters =
      record {
        char_id = 77;
        char_name = name;
        level = 1;
        job = 2;
        appearance_code = 0;
        last_login_at_epoch_sec = 0;
      }
      ∷ [];
  updated_at = 0;
}

abbrev runtime : AccountLineRuntime
runtime = record {
  login_sid = 2;
  login_serial = 1;
  login_ready = true;
  login_handler = true;
  world_handler = true;
  worlds = registry;
  tickets = tables;
  login_character_sessions = put empty session login;
}

abbrev now : ℕ
now = 2000

ticket-Accepted : Accepted release_timeouts tables (some 3) 0 42 session token now ticket
ticket-Accepted = record {
  was_pending = refl;
  by_target = refl;
  in_time = omega arith;
  same_session = refl;
  same_account = refl;
}

consume_iff_example :
    ((consume_issued_world_ticket release_timeouts tables (some 3) 0 42 session token now).kind
      ≡ ok)
    ↔ ((p : PendingWorldTicketUpsert) × Accepted release_timeouts tables
          (some 3)
          0
          42
          session
          token
          now
          p)
consume_iff_example = consume_iff release_timeouts tables (some 3) 0 42 session token now

-- Another world asks.
not_its_world :
    (consume_issued_world_ticket release_timeouts tables (some 4) 0 42 session token now).kind
    ≡ world_server_mismatch
unfolding consume_issued_world_ticket consume_pending refuse
not_its_world = refl

abbrev late : ℕ
late = 30000002000

-- Its own world, too late.
expired_there :
    (consume_issued_world_ticket release_timeouts tables (some 3) 0 42 session token late).kind
    ≡ expired
unfolding consume_issued_world_ticket consume_pending refuse
expired_there = refl

consume_refused_example :
    let o = consume_issued_world_ticket release_timeouts tables (some 3) 0 42 session token late in
    ((o.kind ≡ expired)
      × TooOld release_timeouts tables (some 3) 0 42 session token late
      × Dropped release_timeouts tables (some 3) 0 42 session token late)
    ⊎ ((o.kind ≢ expired)
        × ¬ TooOld release_timeouts tables (some 3) 0 42 session token late
        × (o.tables ≡ tables))
consume_refused_example =
    consume_refused release_timeouts tables (some 3) 0 42 session token late
      (rw expired_there (λ h. cc))

abbrev after_consume : AccountLineRuntime
after_consume = record runtime {
  tickets =
      (consume_issued_world_ticket release_timeouts tables (some 3) 0 42 session token now).tables;
}

consume_once_example :
    (consume_issued_world_ticket release_timeouts
      (handle_all release_timeouts after_consume (ticket_tick 3000 ∷ world_gone 5 9 ∷ [])).tickets
      (some 3)
      0
      42
      session
      token
      4000).kind
    ≢ ok
unfolding issues_any issues
consume_once_example =
    consume_once release_timeouts tables after_consume (some 3) 0 42 session token now
      (ticket_tick 3000 ∷ world_gone 5 9 ∷ []) (some 3) 0 42 session 4000
      (consume_iff_example.1 (ticket, ticket-Accepted)) refl refl

resolved : try_resolve_registered_world_id registry 5 9 ≡ some 3
unfolding try_resolve_registered_world_id find_route is_same_session_key
resolved = refl

enter_relayed_example :
    let asked = ticket_consume 5 9 0 100 42 session token now in
    let trace = (to_consumed ticket 0 now).trace_id in
    let entered = enter_success 5 9 trace 42 77 session token true in
    let a = handle release_timeouts runtime asked in
    let b = handle release_timeouts a.0 entered in
    (a.1 ≡ ticket_consume_response 5 9 trace 100 ok 42 77 session token ∷ [])
    × (b.1 ≡ world_enter_success_notify 2 1 trace 42 77 session token ∷ [])
    × ((handle release_timeouts b.0 entered).1 ≡ [])
enter_relayed_example =
    enter_relayed release_timeouts runtime 5 9 0 100 token now ticket refl refl refl refl
      (rw resolved ticket-Accepted)

abbrev caller : Caller
caller = record { sid = 2; serial = 1; trace_id = 11; request_id = 12 }

select-Entitled_example :
    let t' =
      (on_character_select_request runtime (5 ∷ []) caller 42 77 session token now).0.tickets in
    (t' ≡ tables)
    ⊎ ((p : PendingWorldTicketUpsert) × (p.world_token ≡ token)
        × (t' ≡ issue_ticket tables p)
        × Entitled runtime 42 77 session p)
select-Entitled_example = select-Entitled runtime (5 ∷ []) caller 42 77 session token now

-- The character is listed, so the ticket is issued.
select_issues :
    (on_character_select_request runtime
        (5 ∷ [])
        caller
        42
        77
        session
        token
        now).0.tickets.pending_world_upserts
      token
    ≢ none
unfolding on_character_select_request find_session has_character ticket_route character_selected
    new_ticket issue_ticket put_session
select_issues = λ h. cc

expire-PurgedBy_example :
    PurgedBy
      (λ p. release_timeouts.pending_world_upserts_expire ≤ now - p.issued_at)
      (λ c. release_timeouts.consumed_world_enters_awaiting_notify_expire ≤ now - c.consumed_at)
      tables
      (expire_pending_world_tickets release_timeouts tables now)
expire-PurgedBy_example = expire-PurgedBy release_timeouts tables now

registry-KeyedBySid : KeyedBySid registry
registry-KeyedBySid sid e held = ground arith

handle-KeyedBySid_example :
    KeyedBySid (handle release_timeouts runtime (world_hello 6 2 name host 7001 now)).0.worlds
handle-KeyedBySid_example =
    handle-KeyedBySid release_timeouts runtime (world_hello 6 2 name host 7001 now)
      registry-KeyedBySid

old_key : is_valid_session_key 5 9 ≡ true
unfolding is_valid_session_key
old_key = refl

new_key : is_valid_session_key 6 2 ≡ true
unfolding is_valid_session_key
new_key = refl

hello-Registered_example :
    Registered (on_world_server_hello registry 6 2 name host 7001 now).0 6 2 3 (some 5)
hello-Registered_example =
    hello-Registered registry 6 2 name host 7001 now world refl (λ h. omega (arith, h)) new_key

ready_stale_index_example :
    let w' = on_world_ready_notify registry 5 9 4 3 now in
    (try_resolve_registered_world_id w' 5 9 ≡ some 4)
    × (try_resolve_world_route_session_by_id w' 3 ≡ some (5, 9))
ready_stale_index_example =
    ready_stale_index registry 5 9 3 4 3 now resolved refl old_key (λ h. omega (arith, h))

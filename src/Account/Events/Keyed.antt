-- ===== src/Account/Events/Keyed.antt =====
-- The routes of the account service over its calls.
use new_server.Prelude.{ℕ, ◌≡◌, Bool, List, [], ◌∷◌, arith, erase, nat_eq, bytes_eq}
use new_server.Account.Characters.{characters_received, on_world_character_list_response}
use new_server.Account.Login.{
  character_selected, on_character_select_request, on_world_select_request, put_session,
}
use new_server.Account.Events.Kept.{character_list-tickets, world_list-tickets}
use new_server.Account.Registry.Routes.{
  heartbeat-KeyedBySid, disconnected-KeyedBySid, ready-KeyedBySid, hello-KeyedBySid, erase-keyed,
  KeyedBySid,
}
use new_server.Account.Jobs.{AccountAuthResult}
use new_server.Account.Registry.{erase_world_index, WorldRegistry}
use new_server.Account.Types.{CharacterSummary, RegisteredWorldEndpoint, Timeouts}
use new_server.Account.Runtime.{
  tick_tickets, world_disconnected, hello, AccountLineRuntime, on_login_coordinator_registered,
  relay_notify, on_world_enter_success_notify, on_login_coordinator_disconnected,
  on_world_ticket_consume_request,
}
use new_server.Account.Events.{
  stale_routes, route_tick, ticket_tick, enter_success, ticket_consume, character_select,
  world_characters, character_list, world_select, world_list, auth_done, world_heartbeat,
  world_gone, world_ready, world_hello, login_disconnected, login_registered, Call,
  expire_stale_world_routes, Caller, erase_stale, handle_auth_result, handle,
}

erase_stale-KeyedBySid :
    (w : WorldRegistry) (stale : List (ℕ × RegisteredWorldEndpoint))
    → KeyedBySid w
    → KeyedBySid (erase_stale w stale)
unfolding erase_stale
erase_stale-KeyedBySid w [] keyed = keyed
erase_stale-KeyedBySid w ((sid, x) ∷ stale) keyed =
    erase_stale-KeyedBySid
      (record w {
        worlds_by_sid = erase w.worlds_by_sid sid;
        world_sid_by_world_id = erase_world_index w.world_sid_by_world_id x.world_id sid;
      })
      stale (erase-keyed w.worlds_by_sid sid keyed)

login-worlds :
    (r : AccountLineRuntime) (sid serial : ℕ)
    → (on_login_coordinator_disconnected r sid serial).worlds ≡ r.worlds
unfolding on_login_coordinator_disconnected
login-worlds r sid serial = ground arith

auth-worlds :
    (r : AccountLineRuntime) (rr : AccountAuthResult) (now : ℕ)
    → (handle_auth_result r rr now).0.worlds ≡ r.worlds
unfolding handle_auth_result put_session
auth-worlds r rr now = ground arith

world_select-worlds :
    (r : AccountLineRuntime) (order : List ℕ) (caller : Caller) (account_id world_id : ℕ)
    (login_session : List ℕ) (now : ℕ)
    → (on_world_select_request r order caller account_id world_id login_session now).0.worlds
      ≡ r.worlds
unfolding on_world_select_request put_session
world_select-worlds r order caller account_id world_id login_session now = ground arith

world_characters-worlds :
    (r : AccountLineRuntime) (caller : Caller) (account_id count : ℕ) (ok : Bool)
    (login_session : List ℕ) (characters : List CharacterSummary) (fail_reason : List ℕ) (now : ℕ)
    → (on_world_character_list_response r caller account_id count ok login_session characters
        fail_reason now).0.worlds
      ≡ r.worlds
unfolding on_world_character_list_response characters_received put_session
world_characters-worlds r caller account_id count ok login_session characters fail_reason now =
    ground arith

select-worlds :
    (r : AccountLineRuntime) (order : List ℕ) (caller : Caller) (account_id char_id : ℕ)
    (login_session token : List ℕ) (now : ℕ)
    → (on_character_select_request r order caller account_id char_id login_session token
        now).0.worlds
      ≡ r.worlds
unfolding on_character_select_request character_selected put_session
select-worlds r order caller account_id char_id login_session token now = ground arith

consume-worlds :
    (timeouts : Timeouts) (r : AccountLineRuntime) (sid serial trace request account_id : ℕ)
    (session token : List ℕ) (now : ℕ)
    → (on_world_ticket_consume_request timeouts r sid serial trace request account_id session token
        now).0.worlds
      ≡ r.worlds
unfolding on_world_ticket_consume_request
consume-worlds timeouts r sid serial trace request account_id session token now = ground arith

notify-worlds :
    (r : AccountLineRuntime) (sid serial trace account_id char_id : ℕ) (session token : List ℕ)
    (sent : Bool)
    → (on_world_enter_success_notify r sid serial trace account_id char_id session token
        sent).0.worlds
      ≡ r.worlds
unfolding on_world_enter_success_notify relay_notify
notify-worlds r sid serial trace account_id char_id session token sent = ground arith

-- Each call keeps every registered route under the session that its endpoint names.
pub handle-KeyedBySid :
    (timeouts : Timeouts) (r : AccountLineRuntime) (c : Call)
    → KeyedBySid r.worlds
    → KeyedBySid (handle timeouts r c).0.worlds
unfolding handle on_login_coordinator_registered hello world_disconnected tick_tickets
    expire_stale_world_routes
handle-KeyedBySid t r (login_registered sid serial) keyed = keyed
handle-KeyedBySid t r (login_disconnected sid serial) keyed = rw (login-worlds r sid serial) keyed
handle-KeyedBySid t r (world_hello sid serial name host port now) keyed =
    hello-KeyedBySid r.worlds sid serial name host port now keyed
handle-KeyedBySid t r (world_ready sid serial world_id flags now) keyed =
    ready-KeyedBySid r.worlds sid serial world_id flags now keyed
handle-KeyedBySid t r (world_gone sid serial) keyed =
    disconnected-KeyedBySid r.worlds sid serial keyed
handle-KeyedBySid t r (world_heartbeat sid serial world_id zones load flags now) keyed =
    heartbeat-KeyedBySid r.worlds sid serial world_id zones load flags now keyed
handle-KeyedBySid t r (auth_done rr now) keyed = rw (auth-worlds r rr now) keyed
handle-KeyedBySid t r (world_list order caller account_id session) keyed =
    rw (world_list-tickets r order caller account_id session) keyed
handle-KeyedBySid t r (world_select order caller account_id world_id session now) keyed =
    rw (world_select-worlds r order caller account_id world_id session now) keyed
handle-KeyedBySid t r (character_list caller account_id world_id session sent) keyed =
    rw (character_list-tickets r caller account_id world_id session sent) keyed
handle-KeyedBySid t r (world_characters caller account_id count ok session characters why now)
      keyed =
    rw (world_characters-worlds r caller account_id count ok session characters why now) keyed
handle-KeyedBySid t r (character_select order caller account_id char_id session token now) keyed =
    rw (select-worlds r order caller account_id char_id session token now) keyed
handle-KeyedBySid t r (ticket_consume sid serial trace request account_id session token now) keyed =
    rw (consume-worlds t r sid serial trace request account_id session token now) keyed
handle-KeyedBySid t r (enter_success sid serial trace account_id char_id session token sent) keyed =
    rw (notify-worlds r sid serial trace account_id char_id session token sent) keyed
handle-KeyedBySid t r (ticket_tick now) keyed = keyed
handle-KeyedBySid t r (route_tick order now) keyed =
    erase_stale-KeyedBySid r.worlds (stale_routes t r.worlds order now) keyed

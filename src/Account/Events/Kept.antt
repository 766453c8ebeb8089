-- ===== src/Account/Events/Kept.antt =====
-- The calls of the account service that leave the tickets alone.
use new_server.Prelude.{ℕ, ◌≡◌, Bool, List, arith}
use new_server.Account.Characters.{
  characters_received, on_world_character_list_response, on_character_list_request,
}
use new_server.Account.Login.{on_world_list_request, on_world_select_request, put_session}
use new_server.Account.Jobs.{AccountAuthResult}
use new_server.Account.Events.{CharacterSummary, Caller, handle_auth_result}
use new_server.Account.Runtime.{AccountLineRuntime, on_login_coordinator_disconnected}

pub login-tickets :
    (r : AccountLineRuntime) (sid serial : ℕ)
    → (on_login_coordinator_disconnected r sid serial).tickets ≡ r.tickets
unfolding on_login_coordinator_disconnected
login-tickets r sid serial = ground arith

pub auth-tickets :
    (r : AccountLineRuntime) (rr : AccountAuthResult) (now : ℕ)
    → (handle_auth_result r rr now).0.tickets ≡ r.tickets
unfolding handle_auth_result put_session
auth-tickets r rr now = ground arith

pub world_list-tickets :
    (r : AccountLineRuntime) (order : List ℕ) (caller : Caller) (account_id : ℕ)
    (login_session : List ℕ)
    → (on_world_list_request r order caller account_id login_session).0 ≡ r
unfolding on_world_list_request
world_list-tickets r order caller account_id login_session = ground arith

pub world_select-tickets :
    (r : AccountLineRuntime) (order : List ℕ) (caller : Caller) (account_id world_id : ℕ)
    (login_session : List ℕ) (now : ℕ)
    → (on_world_select_request r order caller account_id world_id login_session now).0.tickets
      ≡ r.tickets
unfolding on_world_select_request put_session
world_select-tickets r order caller account_id world_id login_session now = ground arith

pub character_list-tickets :
    (r : AccountLineRuntime) (caller : Caller) (account_id world_id : ℕ) (login_session : List ℕ)
    (sent : Bool)
    → (on_character_list_request r caller account_id world_id login_session sent).0 ≡ r
unfolding on_character_list_request
character_list-tickets r caller account_id world_id login_session sent = ground arith

pub world_characters-tickets :
    (r : AccountLineRuntime) (caller : Caller) (account_id count : ℕ) (ok : Bool)
    (login_session : List ℕ) (characters : List CharacterSummary) (fail_reason : List ℕ) (now : ℕ)
    → (on_world_character_list_response r caller account_id count ok login_session characters
        fail_reason now).0.tickets
      ≡ r.tickets
unfolding on_world_character_list_response characters_received put_session
world_characters-tickets r caller account_id count ok login_session characters fail_reason now =
    ground arith

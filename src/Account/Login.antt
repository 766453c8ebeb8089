-- ===== src/Account/Login.antt =====
-- The login line's requests (src/services/account/runtime/account_line_runtime.cpp): the world list,
-- the choice of a world, and the choice of a character, which issues a ticket. The random token is an
-- argument; so is the result of a send that the code tests.
use new_server.Prelude.{
  ℕ, min, Bool, true, false, ◌||◌, not, Option, none, some, List, [], ◌∷◌, length, is_empty, take,
  put, if◌then◌else◌, ◌==◌, nat_eq, bytes_eq,
}
use new_server.Account.Tickets.{issue_ticket}
use new_server.Account.Select.{build_world_summary_list, try_resolve_selected_world_route}
use new_server.Account.Runtime.{AccountLineRuntime}
use new_server.Account.Messages.{
  world_not_selected, world_not_ready, world_not_found, character_not_found, invalid_login_session,
  no_fail_reason, world_list_result, character_select_result, world_select_result, FailReason,
  Message, Caller,
}
use new_server.Account.Types.{PendingWorldTicketUpsert, LoginCharacterSession, CharacterSummary}

abbrev pub k_world_list_max_count : ℕ
k_world_list_max_count = 16

-- The session of a login, when it is the account's.
unfoldable pub find_session : AccountLineRuntime → List ℕ → ℕ → Option LoginCharacterSession
find_session r login_session account_id = elim (r.login_character_sessions login_session) [
  | none ↦ none
  | some s ↦ if s.account_id == account_id then some s else none
]

unfoldable pub put_session :
    AccountLineRuntime → List ℕ → LoginCharacterSession → AccountLineRuntime
put_session r login_session s = record r {
  login_character_sessions = put r.login_character_sessions login_session s;
}

unfoldable pub on_world_list_request :
    AccountLineRuntime → List ℕ → Caller → ℕ → List ℕ → AccountLineRuntime × List Message
on_world_list_request r order caller account_id login_session =
    let worlds = build_world_summary_list r.worlds order in
    let ready = not (is_empty worlds) in
    elim (find_session r login_session account_id) [
      | none ↦ (r, world_list_result caller false account_id 0 [] invalid_login_session ∷ [])
      | some s ↦ (
        r,
        world_list_result caller ready account_id (min (length worlds) k_world_list_max_count)
              (take k_world_list_max_count worlds)
              (if ready then no_fail_reason else world_not_ready)
            ∷ [],
      )
    ]

unfoldable pub on_world_select_request :
    AccountLineRuntime → List ℕ → Caller → ℕ → ℕ → List ℕ → ℕ → AccountLineRuntime × List Message
on_world_select_request r order caller account_id world_id login_session now =
    let fail : FailReason → AccountLineRuntime × List Message = λ why.
      (r, world_select_result caller false account_id world_id login_session [] why 0 ∷ []) in
    elim (find_session r login_session account_id) [
      | none ↦ fail invalid_login_session
      | some s ↦ elim (try_resolve_selected_world_route r.worlds order world_id) [
        | none ↦ fail world_not_found
        | some (host, port) ↦ (
          put_session r login_session (record s {
            selected_world_id = world_id;
            selected_world_host = host;
            selected_world_port = port;
            updated_at = now;
          }),
          world_select_result caller true account_id world_id login_session host no_fail_reason port
              ∷ [],
        )
      ]
    ]

unfoldable pub has_character : ℕ → List CharacterSummary → Bool
has_character char_id [] = false
has_character char_id (c ∷ cs) = c.char_id == char_id || has_character char_id cs

-- The route of the ticket: the one kept at the choice of the world, or the one found now.
unfoldable pub ticket_route :
    AccountLineRuntime → List ℕ → LoginCharacterSession → Option (List ℕ × ℕ)
ticket_route r order s =
    if is_empty s.selected_world_host || s.selected_world_port == 0 || s.selected_world_id == 0
    then try_resolve_selected_world_route r.worlds order s.selected_world_id
    else some (s.selected_world_host, s.selected_world_port)

unfoldable pub new_ticket :
    Caller
    → LoginCharacterSession
    → ℕ
    → ℕ
    → List ℕ
    → List ℕ
    → List ℕ
    → ℕ
    → ℕ
    → PendingWorldTicketUpsert
new_ticket caller s account_id char_id login_session world_token host port now = record {
  trace_id = caller.trace_id;
  request_id = caller.request_id;
  login_sid = caller.sid;
  login_serial = caller.serial;
  target_world_id = s.selected_world_id;
  account_id = account_id;
  char_id = char_id;
  login_session = login_session;
  world_token = world_token;
  world_host = host;
  world_port = port;
  issued_at = now;
}

unfoldable pub character_selected :
    AccountLineRuntime
    → Caller
    → LoginCharacterSession
    → PendingWorldTicketUpsert
    → AccountLineRuntime × List Message
character_selected r caller s p =
    let selected = record s {
      selected_char_id = p.char_id;
      trace_id = caller.trace_id;
      updated_at = p.issued_at;
    } in
    (
      record (put_session r p.login_session selected) { tickets = issue_ticket r.tickets p },
      character_select_result caller true p.account_id p.char_id p.login_session p.world_token
            p.world_host no_fail_reason p.world_port
          ∷ [],
    )

unfoldable pub on_character_select_request :
    AccountLineRuntime
    → List ℕ
    → Caller
    → ℕ
    → ℕ
    → List ℕ
    → List ℕ
    → ℕ
    → AccountLineRuntime × List Message
on_character_select_request r order caller account_id char_id login_session world_token now =
    let fail : ℕ → FailReason → AccountLineRuntime × List Message = λ c why.
      (r, character_select_result caller false account_id c login_session [] [] why 0 ∷ []) in
    elim (find_session r login_session account_id) [
      | none ↦ fail 0 invalid_login_session
      | some s ↦
          if not (has_character char_id s.cached_characters)
          then fail char_id character_not_found
          else if s.selected_world_id == 0
          then fail char_id world_not_selected
          else elim (ticket_route r order s) [
            | none ↦ fail char_id world_not_ready
            | some (host, port) ↦
                character_selected r caller s
                  (new_ticket caller s account_id char_id login_session world_token host port now)
          ]
    ]

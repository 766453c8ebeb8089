-- ===== src/Account/Characters.antt =====
-- The characters of an account (src/services/account/runtime/account_line_runtime.cpp): the request for
-- them, and the answers of the database and of the world that the session selected.
use new_server.Prelude.{
  ℕ, min, Bool, true, false, ◌&&◌, not, none, some, List, [], ◌∷◌, map, take, if◌then◌else◌, ◌==◌,
  nat_eq, bytes_eq,
}
use new_server.Account.Registry.{
  try_resolve_world_route_session_by_id, try_resolve_registered_world_id,
}
use new_server.Account.Jobs.{copy_character}
use new_server.Account.Login.{find_session, put_session}
use new_server.Account.Types.{k_character_list_max_count, LoginCharacterSession, CharacterSummary}
use new_server.Account.Messages.{
  world_route_send_failed, world_character_list_request, world_selection_mismatch,
  world_not_selected, remote, invalid_login_session, world_route_not_ready, no_fail_reason,
  character_list_result, FailReason, Message, Caller,
}
use new_server.Account.Runtime.{AccountLineRuntime}

-- The request to the world that the session selected, with the result of the send.
unfoldable pub ask_world : AccountLineRuntime → Caller → ℕ → ℕ → List ℕ → Bool → List Message
ask_world r caller account_id world_id login_session sent =
    let fail : FailReason → List Message =
      λ why. character_list_result caller false account_id 0 [] why ∷ [] in
    if not r.world_handler
    then fail world_route_not_ready
    else elim (try_resolve_world_route_session_by_id r.worlds world_id) [
      | none ↦ fail world_route_not_ready
      | some (world_sid, world_serial) ↦
          if sent
          then world_character_list_request
              (record caller { sid = world_sid; serial = world_serial }) account_id world_id
              login_session
            ∷ []
          else fail world_route_send_failed
    ]

unfoldable pub on_character_list_request :
    AccountLineRuntime → Caller → ℕ → ℕ → List ℕ → Bool → AccountLineRuntime × List Message
on_character_list_request r caller account_id world_id login_session sent =
    let fail : FailReason → AccountLineRuntime × List Message =
      λ why. (r, character_list_result caller false account_id 0 [] why ∷ []) in
    elim (find_session r login_session account_id) [
      | none ↦ fail invalid_login_session
      | some s ↦
          if s.selected_world_id == 0
          then fail world_not_selected
          else if not (world_id == 0) && not (world_id == s.selected_world_id)
          then fail world_selection_mismatch
          else (r, ask_world r caller account_id s.selected_world_id login_session sent)
    ]

-- The first session that a walk finds with the account and the trace of the result.
unfoldable pub store_characters :
    AccountLineRuntime → List (List ℕ) → ℕ → ℕ → List CharacterSummary → ℕ → AccountLineRuntime
store_characters r [] account_id trace_id characters now = r
store_characters r (key ∷ order) account_id trace_id characters now =
    let rest = store_characters r order account_id trace_id characters now in
    elim (r.login_character_sessions key) [
      | none ↦ rest
      | some s ↦
          if s.account_id == account_id && s.trace_id == trace_id
          then put_session r key (record s { cached_characters = characters; updated_at = now })
          else rest
    ]

-- `HandleDqsResult_` for a character list; `succeeded` is `ok` with the result code `success`.
unfoldable pub handle_character_list_result :
    AccountLineRuntime
    → List (List ℕ)
    → Caller
    → Bool
    → ℕ
    → ℕ
    → List CharacterSummary
    → List ℕ
    → ℕ
    → AccountLineRuntime × List Message
handle_character_list_result r order caller succeeded account_id count characters fail_reason now =
    let copied = map copy_character (take (min count k_character_list_max_count) characters) in
    if not r.login_handler
    then (r, [])
    else if not succeeded
    then (r, character_list_result caller false account_id 0 [] (remote fail_reason) ∷ [])
    else (
      store_characters r order account_id caller.trace_id copied now,
      character_list_result caller true account_id count copied no_fail_reason ∷ [],
    )

unfoldable pub characters_received :
    AccountLineRuntime
    → LoginCharacterSession
    → Caller
    → ℕ
    → ℕ
    → Bool
    → List ℕ
    → List CharacterSummary
    → List ℕ
    → ℕ
    → AccountLineRuntime × List Message
characters_received r s caller account_id count ok login_session characters fail_reason now =
    let copied = map copy_character (take (min count k_character_list_max_count) characters) in
    let login = record caller { sid = s.login_sid; serial = s.login_serial } in
    let cached = if ok then copied else [] in
    (
      put_session r login_session (record s { cached_characters = cached; updated_at = now }),
      (if ok
            then character_list_result login true account_id count copied no_fail_reason
            else character_list_result login false account_id 0 [] (remote fail_reason))
          ∷ [],
    )

unfoldable pub on_world_character_list_response :
    AccountLineRuntime
    → Caller
    → ℕ
    → ℕ
    → Bool
    → List ℕ
    → List CharacterSummary
    → List ℕ
    → ℕ
    → AccountLineRuntime × List Message
on_world_character_list_response r caller account_id count ok login_session characters fail_reason
      now =
    if not r.login_handler
    then (r, [])
    else elim (try_resolve_registered_world_id r.worlds caller.sid caller.serial) [
      | none ↦ (r, [])
      | some world_id ↦ elim (find_session r login_session account_id) [
        | none ↦ (r, [])
        | some s ↦
            if s.selected_world_id == world_id
            then characters_received r s caller account_id count ok login_session characters
                fail_reason now
            else (r, [])
      ]
    ]

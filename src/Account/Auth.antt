-- ===== src/Account/Auth.antt =====
-- A login request (src/services/account/runtime/account_line_runtime.cpp): its checks and the job that
-- it becomes.
use new_server.Prelude.{
  ℕ, ◌≡◌, refl, ◌∙◌, ◌↔◌, inl, inr, Bool, true, false, ◌&&◌, not, List, [], ◌∷◌, arith, is_empty,
  if◌then◌else◌, Bool-cases,
}
use new_server.Account.Types.{c_string}
use new_server.Account.Jobs.{k_login_pw_max_len, k_login_id_max_len, AccountAuthRequest}
use new_server.Account.Slots.{
  auth_data, route_auth_shard, count_drop, SlotData, push_account_auth_dqs, push_dqs, push_free,
  DqsLine,
}
use new_server.Account.Messages.{
  db_queue_full, empty_password, empty_login_id, account_auth_result, Message, Caller,
}

unfoldable pub auth_payload : Caller → List ℕ → List ℕ → AccountAuthRequest
auth_payload caller login_id password = record {
  sid = caller.sid;
  serial = caller.serial;
  trace_id = caller.trace_id;
  request_id = caller.request_id;
  login_id = c_string k_login_id_max_len login_id;
  password = c_string k_login_pw_max_len password;
}

-- The first argument is whether `login_handler_` is set.
unfoldable pub on_login_auth_request :
    Bool → DqsLine → Caller → List ℕ → List ℕ → DqsLine × List Message
on_login_auth_request login_handler s caller login_id password =
    let pushed = push_account_auth_dqs s (auth_payload caller login_id password) in
    if not login_handler
    then (s, [])
    else if is_empty login_id
    then (s, account_auth_result caller false 0 [] empty_login_id ∷ [])
    else if is_empty password
    then (s, account_auth_result caller false 0 [] empty_password ∷ [])
    else if pushed.1
    then (pushed.0, [])
    else (pushed.0, account_auth_result caller false 0 [] db_queue_full ∷ [])

pushed-taken :
    (s : DqsLine) (held : SlotData) (shard : ℕ) (free : List ℕ)
    → (push_free s held shard free).1 ≡ (not (is_empty free) && not (is_empty s.workers))
unfolding push_free push_dqs
pushed-taken s held shard [] = refl
pushed-taken s held shard (idx ∷ rest) = elim (Bool-cases (is_empty s.workers)) [
  | inl e ↦ rw e refl
  | inr e ↦ rw e refl
]

drop-same : (o : DqsLine × Bool) → (count_drop o).1 ≡ o.1
unfolding count_drop
drop-same (s, true) = refl
drop-same (s, false) = refl

auth-taken :
    (s : DqsLine) (payload : AccountAuthRequest)
    → (push_account_auth_dqs s payload).1 ≡ (not (is_empty s.empty) && not (is_empty s.workers))
unfolding push_account_auth_dqs
auth-taken s payload =
    let shard = route_auth_shard s.shard_count payload in
    drop-same (push_free s (auth_data payload) shard s.empty)
    ∙ pushed-taken s (auth_data payload) shard s.empty

-- A login request is left without an answer for now exactly where it names a login and a password, a
-- slot is free and the workers are there: every other request is answered at once.
pub auth_unanswered_iff :
    (s : DqsLine) (caller : Caller) (login_id password : List ℕ)
    → ((on_login_auth_request true s caller login_id password).1 ≡ []) ↔ (
        (is_empty login_id ≡ false)
        × (is_empty password ≡ false)
        × (is_empty s.empty ≡ false)
        × (is_empty s.workers ≡ false))
unfolding on_login_auth_request
auth_unanswered_iff s caller login_id password =
    ground (arith, auth-taken s (auth_payload caller login_id password))

-- ===== src/Account/Events/Authority.antt =====
-- Who is given a ticket.
use new_server.Prelude.{
  ℕ, ◌≡◌, refl, ◌≢◌, ◌⊎◌, inl, inr, true, ◌&&◌, not, some, List, arith, ◌==◌, Bool-cases,
  Option-cases, nat_eq, bytes_eq,
}
use new_server.Account.Login.{
  ticket_route, put_session, new_ticket, character_selected, on_character_select_request,
  has_character, find_session,
}
use new_server.Account.Tickets.{issue_ticket}
use new_server.Account.Messages.{Caller}
use new_server.Account.Types.{LoginCharacterSession, PendingWorldTicketUpsert}
use new_server.Account.Runtime.{AccountLineRuntime}

-- The session for which a ticket was issued.
pub record Entitled (r : AccountLineRuntime) (account_id char_id : ℕ) (login_session : List ℕ)
    (p : PendingWorldTicketUpsert) : Type 0 where
  pub session : LoginCharacterSession
  pub found : r.login_character_sessions login_session ≡ some session
  pub owner : session.account_id ≡ account_id
  pub owns : has_character char_id session.cached_characters ≡ true
  pub in_world : session.selected_world_id ≢ 0
  pub world : p.target_world_id ≡ session.selected_world_id
  pub account : p.account_id ≡ account_id
  pub character : p.char_id ≡ char_id
  pub of_session : p.login_session ≡ login_session

session-found :
    (r : AccountLineRuntime) (login_session : List ℕ) (account_id : ℕ) (s : LoginCharacterSession)
    → find_session r login_session account_id ≡ some s
    → (r.login_character_sessions login_session ≡ some s) × (s.account_id ≡ account_id)
unfolding find_session
session-found r login_session account_id s e = ground arith

-- A choice of a character leaves every ticket as it was, or puts one new ticket under the token:
-- that ticket is for a character which the session of the caller's own account has listed, in the
-- world which the session selected.
pub select-Entitled :
    (r : AccountLineRuntime) (order : List ℕ) (caller : Caller) (account_id char_id : ℕ)
    (login_session token : List ℕ) (now : ℕ)
    → let t' =
        (on_character_select_request r order caller account_id char_id login_session token
          now).0.tickets in
      (t' ≡ r.tickets)
      ⊎ ((p : PendingWorldTicketUpsert) × (p.world_token ≡ token)
          × (t' ≡ issue_ticket r.tickets p)
          × Entitled r account_id char_id login_session p)
unfolding on_character_select_request character_selected new_ticket put_session
select-Entitled r order caller account_id char_id login_session token now =
    elim (Option-cases (find_session r login_session account_id)) [
      | inl e ↦ inl (rw (e, on_character_select_request) refl)
      | inr (s, e) ↦ elim (Option-cases (ticket_route r order s)) [
        | inl f ↦ inl (ground arith)
        | inr ((host, port), f) ↦
            let p : PendingWorldTicketUpsert =
              new_ticket caller s account_id char_id login_session token host port now in
            let (found, owner) = session-found r login_session account_id s e in
            elim (Bool-cases
              (has_character char_id s.cached_characters && not (s.selected_world_id == 0))) [
                | inl g ↦ inr (
                  p,
                  refl,
                  ground arith,
                  record {
                    session = s;
                    found = found;
                    owner = owner;
                    owns = ground arith;
                    in_world = ground arith;
                    world = refl;
                    account = refl;
                    character = refl;
                    of_session = refl;
                  },
                )
                | inr g ↦ inl (ground arith)
              ]
      ]
    ]

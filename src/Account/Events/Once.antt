-- ===== src/Account/Events/Once.antt =====
-- A ticket is accepted at most once, whatever is called between two attempts.
use new_server.Prelude.{
  ℕ, ◌-◌, ◌≡◌, refl, sym, ap, ◌∙◌, ◌≢◌, inl, inr, Bool, true, false, ◌||◌, Option, none, List, [],
  ◌∷◌, arith, Map, put, erase, erase_if, leb, ◌==◌, bytes_beq_iff, Bool-cases, nat_eq, bytes_eq,
}
use new_server.Account.Tickets.Paths.{Keeps, path_keeps}
use new_server.Account.Tickets.Consume.{consume-moves, consume_iff}
use new_server.Account.Events.Reach.{handle-Leads, IssuedBy, issues}
use new_server.Account.Runtime.{AccountLineRuntime}
use new_server.Account.Types.{ok, Timeouts}
use new_server.Account.Events.{handle, handle_all, Call}
use new_server.Account.Tickets.{
  erase_pending_world_tickets_for_server, missing_ticket, expire_ticket,
  expire_pending_world_tickets, forget_consumed, consume_pending, refuse, issue_ticket, move_ticket,
  consume_issued_world_ticket, TicketTables,
}

unfoldable pub issues_any : List ℕ → List Call → Bool
issues_any token [] = false
issues_any token (c ∷ calls) = issues token c || issues_any token calls

abbrev NotPending : List ℕ → TicketTables → Type 0
NotPending token t = t.pending_world_upserts token ≡ none

erase-none {ℓ} :
    {V : Type ℓ} (m : Map (List ℕ) V) (k token : List ℕ) → m token ≡ none → erase m k token ≡ none
erase-none m k token e = elim (Bool-cases (k == token)) [
  | inl hit ↦ rw (hit, erase) refl
  | inr miss ↦ rw (miss, erase) e
]

erase_if-none {ℓ} :
    {V : Type ℓ} (test : V → Bool) (m : Map (List ℕ) V) (token : List ℕ)
    → m token ≡ none
    → erase_if test m token ≡ none
erase_if-none test m token e = rw (e, erase_if) refl

consume-none :
    (timeouts : Timeouts) (t : TicketTables) (sender : Option ℕ) (trace_id account_id : ℕ)
    (login_session world_token : List ℕ) (now : ℕ) (token : List ℕ)
    → NotPending token t
    → NotPending token
        (consume_issued_world_ticket timeouts t sender trace_id account_id login_session world_token
          now).tables
unfolding consume_issued_world_ticket consume_pending refuse expire_ticket move_ticket
consume-none timeouts t sender trace_id account_id login_session world_token now token e =
    ground (arith, erase-none t.pending_world_upserts world_token token e)

NotPending-Keeps :
    (timeouts : Timeouts) (c : Call) (token : List ℕ)
    → issues token c ≡ false
    → Keeps timeouts (IssuedBy c) (NotPending token)
unfolding issue_ticket forget_consumed expire_pending_world_tickets
    erase_pending_world_tickets_for_server
NotPending-Keeps timeouts c token other = record {
  on_issue = λ u p i e. elim (Bool-cases (p.world_token == token)) [
    | inl hit ↦
        let same : p.world_token ≡ token = (bytes_beq_iff p.world_token token).0 hit in
        let i' : issues token c ≡ true = ap (λ k. issues k c) (sym same) ∙ i in
        absurd (cc (other, i'))
    | inr miss ↦ rw (miss, put) e
  ];
  on_consume = λ u s a b l w n e. consume-none timeouts u s a b l w n token e;
  on_forget = λ u w e. e;
  on_expire = λ u n e.
      erase_if-none (λ p. leb timeouts.pending_world_upserts_expire (n - p.issued_at))
        u.pending_world_upserts token e;
  on_erase = λ u w e. erase_if-none (λ p. p.target_world_id == w) u.pending_world_upserts token e;
}

handle_all-none :
    (timeouts : Timeouts) (r : AccountLineRuntime) (calls : List Call) (token : List ℕ)
    → issues_any token calls ≡ false
    → NotPending token r.tickets
    → NotPending token (handle_all timeouts r calls).tickets
unfolding handle_all issues_any
handle_all-none t r [] token other e = e
handle_all-none t r (c ∷ calls) token other e =
    handle_all-none t (handle t r c).0 calls token (ground arith) (
      path_keeps t (IssuedBy c) (NotPending token) r.tickets (handle t r c).0.tickets
        (NotPending-Keeps t c token (ground arith)) e (handle-Leads t c r))

none-refused :
    (timeouts : Timeouts) (t : TicketTables) (sender : Option ℕ) (trace_id account_id : ℕ)
    (login_session token : List ℕ) (now : ℕ)
    → NotPending token t
    → (consume_issued_world_ticket timeouts t sender trace_id account_id login_session token
        now).kind
      ≢ ok
unfolding consume_issued_world_ticket refuse missing_ticket
none-refused timeouts t sender trace_id account_id login_session token now e = ground arith

accepted-none :
    (timeouts : Timeouts) (t : TicketTables) (sender : Option ℕ) (trace_id account_id : ℕ)
    (login_session token : List ℕ) (now : ℕ)
    → let o =
        consume_issued_world_ticket timeouts t sender trace_id account_id login_session token now in
      o.kind ≡ ok → NotPending token o.tables
unfolding move_ticket
accepted-none timeouts t sender trace_id account_id login_session token now good =
    let (p, a) =
      (consume_iff timeouts t sender trace_id account_id login_session token now).0 good in
    rw (consume-moves timeouts t sender trace_id account_id login_session token now p a)
      (rw ((bytes_beq_iff token token).1 refl) refl)

-- Once a ticket is accepted, and as long as no call issues a new ticket under its token, no sequence
-- of calls leads to a state in which it is accepted again, whoever asks and whenever.
pub consume_once :
    (timeouts : Timeouts) (t : TicketTables) (r : AccountLineRuntime) (sender : Option ℕ)
    (trace_id account_id : ℕ) (login_session token : List ℕ) (now : ℕ) (calls : List Call)
    (sender' : Option ℕ) (trace_id' account_id' : ℕ) (login_session' : List ℕ) (now' : ℕ)
    → let o =
        consume_issued_world_ticket timeouts t sender trace_id account_id login_session token now in
      o.kind ≡ ok
      → r.tickets ≡ o.tables
      → issues_any token calls ≡ false
      → (consume_issued_world_ticket timeouts
          (handle_all timeouts r calls).tickets
          sender'
          trace_id'
          account_id'
          login_session'
          token
          now').kind
        ≢ ok
consume_once timeouts t r sender trace_id account_id login_session token now calls s' t' a' l' now'
      good after other =
    none-refused timeouts (handle_all timeouts r calls).tickets s' t' a' l' token now' (
      handle_all-none timeouts r calls token other (
        rw after
          (accepted-none timeouts t sender trace_id account_id login_session token now good)))

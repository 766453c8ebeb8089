-- ===== src/Account/Tickets/Consume.antt =====
-- When a ticket is accepted, and what a refused one leaves.
use new_server.Prelude.{
  ℕ, ◌-◌, ◌≤◌, ◌<◌, ◌≡◌, refl, ap, ◌∙◌, ◌≢◌, ◌↔◌, ◌⊎◌, inl, inr, true, false, Option, none, some,
  List, arith, erase, leb, ◌==◌, bytes_beq_iff, Bool-cases, Option-cases, nat_eq, bytes_eq,
}
use new_server.Account.Tickets.{
  expire_ticket, missing_ticket, to_consumed, refuse, move_ticket, consume_issued_world_ticket,
  ConsumeOutcome, consume_pending, TicketTables,
}
use new_server.Account.Types.{expired, ok, PendingWorldTicketUpsert, Timeouts}

-- What an accepted ticket was, and what the tables hold after it.
pub record Accepted (timeouts : Timeouts) (t : TicketTables) (sender : Option ℕ)
    (trace_id account_id : ℕ) (login_session world_token : List ℕ) (now : ℕ)
    (p : PendingWorldTicketUpsert) : Type 0 where
  pub was_pending : t.pending_world_upserts world_token ≡ some p
  pub by_target : sender ≡ some p.target_world_id
  pub in_time : now - p.issued_at < timeouts.account_world_expire
  pub same_session : p.login_session ≡ login_session
  pub same_account : p.account_id ≡ account_id

module _ (timeouts : Timeouts) (t : TicketTables) (sender : Option ℕ) (trace_id account_id : ℕ)
    (login_session world_token : List ℕ) (now : ℕ) where
  abbrev outcome : ConsumeOutcome
  outcome =
      consume_issued_world_ticket timeouts t sender trace_id account_id login_session world_token
        now

  bytes_sound : {a b : List ℕ} → (a == b) ≡ true → a ≡ b
  bytes_sound {a} {b} h = (bytes_beq_iff a b).0 h

  bytes_same : {a b : List ℕ} → a ≡ b → (a == b) ≡ true
  bytes_same {a} {b} h = (bytes_beq_iff a b).1 h

  in_time-pending :
      (w : ℕ) (p : PendingWorldTicketUpsert)
      → t.pending_world_upserts world_token ≡ some p
      → sender ≡ some w
      → (consume_pending timeouts t w trace_id account_id login_session world_token now p).kind ≡ ok
      → Accepted timeouts t sender trace_id account_id login_session world_token now p
  unfolding consume_pending refuse
  in_time-pending w p held from good = elim (Bool-cases (p.login_session == login_session)) [
    | inl e ↦ record {
      was_pending = held;
      by_target = ground arith;
      in_time = ground arith;
      same_session = bytes_sound e;
      same_account = ground arith;
    }
    | inr e ↦ absurd (ground arith)
  ]

  ok-Accepted :
      outcome.kind ≡ ok
      → (p : PendingWorldTicketUpsert) × Accepted timeouts t sender trace_id account_id
          login_session world_token now p
  unfolding consume_issued_world_ticket refuse missing_ticket
  ok-Accepted good = elim (Option-cases sender) [
    | inl e ↦ absurd (ground arith)
    | inr (w, from) ↦ elim (Option-cases (t.pending_world_upserts world_token)) [
      | inl e ↦ absurd (ground arith)
      | inr (p, held) ↦ (p, in_time-pending w p held from (ground arith))
    ]
  ]

  -- A ticket that is accepted moves from the pending tickets to those that wait for a notify, with
  -- its account, character and session.
  pub consume-moves :
      (p : PendingWorldTicketUpsert)
      → Accepted timeouts t sender trace_id account_id login_session world_token now p
      → outcome ≡ record {
        tables = move_ticket t world_token (to_consumed p trace_id now);
        kind = ok;
        consumed = to_consumed p trace_id now;
      }
  unfolding consume_issued_world_ticket consume_pending
  consume-moves p a =
      rw (a.by_target, consume_issued_world_ticket)
        (rw (a.was_pending, consume_issued_world_ticket)
          (ground (arith, a.in_time, a.same_account, bytes_same a.same_session)))

  -- The answer is `ok` exactly where the sender is a registered world that a pending ticket under
  -- the token names, the login session and the account are the ticket's, and it is in time.
  pub consume_iff : (outcome.kind ≡ ok) ↔ (
      (p : PendingWorldTicketUpsert) × Accepted timeouts t sender trace_id account_id login_session
        world_token now p)
  consume_iff = (ok-Accepted, λ a. ap (λ o. o.kind) (consume-moves a.0 a.1))

  -- The sender is a world, and the ticket that is pending under the token has waited too long.
  abbrev pub TooOld : Type 0
  TooOld =
      (w : ℕ) × (p : PendingWorldTicketUpsert) × (sender ≡ some w)
      × (t.pending_world_upserts world_token ≡ some p)
      × (timeouts.account_world_expire ≤ now - p.issued_at)

  -- Only the ticket under the token is gone.
  pub record Dropped : Type 0 where
    pub gone : outcome.tables.pending_world_upserts world_token ≡ none
    pub others :
        (k : List ℕ)
        → (world_token == k) ≡ false
        → outcome.tables.pending_world_upserts k ≡ t.pending_world_upserts k
    pub consumed :
        outcome.tables.consumed_world_enters_awaiting_notify
        ≡ t.consumed_world_enters_awaiting_notify

  old-expired : TooOld → (outcome.kind ≡ expired) × (outcome.tables ≡ expire_ticket t world_token)
  unfolding consume_issued_world_ticket consume_pending refuse
  old-expired (w, p, from, held, late) =
      rw (from, consume_issued_world_ticket)
        (rw (held, consume_issued_world_ticket) (ground (arith, late)))

  -- Any other refusal of a ticket that is in time.
  young-kept :
      (w : ℕ) (p : PendingWorldTicketUpsert)
      → sender ≡ some w
      → t.pending_world_upserts world_token ≡ some p
      → now - p.issued_at < timeouts.account_world_expire
      → outcome.kind ≢ ok
      → (outcome.kind ≢ expired) × (outcome.tables ≡ t)
  unfolding consume_issued_world_ticket consume_pending refuse
  young-kept w p from held young =
      rw (from, consume_issued_world_ticket)
        (rw (held, consume_issued_world_ticket) (λ refusal. ground (arith, young, refusal)))

  unasked-kept :
      (sender ≡ none) ⊎ (t.pending_world_upserts world_token ≡ none)
      → (outcome.kind ≢ expired) × (outcome.tables ≡ t)
  unfolding consume_issued_world_ticket refuse missing_ticket
  unasked-kept none_there = ground arith

  expire-Dropped : outcome.tables ≡ expire_ticket t world_token → Dropped
  unfolding expire_ticket
  expire-Dropped e = record {
    gone = ap (λ o. o.pending_world_upserts world_token) e ∙ rw ((bytes_same refl), erase) refl;
    others = λ k apart. ap (λ o. o.pending_world_upserts k) e ∙ rw (apart, erase) refl;
    consumed = ap (λ o. o.consumed_world_enters_awaiting_notify) e;
  }

  -- A refusal answers `expired` exactly where the ticket is too old, and then drops that ticket and
  -- leaves all else; every other refusal leaves the tables as they were.
  pub consume_refused :
      outcome.kind ≢ ok
      → ((outcome.kind ≡ expired) × TooOld × Dropped)
        ⊎ ((outcome.kind ≢ expired) × ¬ TooOld × (outcome.tables ≡ t))
  consume_refused refusal = elim (Option-cases sender) [
    | inl e ↦
        let (other, same) = unasked-kept (inl e) in
        inr (other, (λ old. other (old-expired old).0), same)
    | inr (w, from) ↦ elim (Option-cases (t.pending_world_upserts world_token)) [
      | inl e ↦
          let (other, same) = unasked-kept (inr e) in
          inr (other, (λ old. other (old-expired old).0), same)
      | inr (p, held) ↦ elim (Bool-cases (leb timeouts.account_world_expire (now - p.issued_at))) [
        | inl late ↦
            let old : TooOld = (w, p, from, held, ground arith) in
            let (kind, dropped) = old-expired old in inl (kind, old, expire-Dropped dropped)
        | inr early ↦
            let (other, same) = young-kept w p from held (ground arith) refusal in
            inr (other, (λ old. other (old-expired old).0), same)
      ]
    ]
  ]

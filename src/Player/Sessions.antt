-- ===== src/Player/Sessions.antt =====
-- A player's session: binds and the disconnects that come after them.
use new_server.Prelude.{
  ℕ, ◌≡◌, refl, sym, ◌∙◌, ◌≢◌, inl, inr, true, false, ◌||◌, not, arith, ◌==◌, Option-cases, nat_eq,
}
use new_server.Player.{
  PlayerActor, invalid_sid, sync_projection_from_core_state,
  sync_combat_projection_from_authoritative,
}
use new_server.Player.Moves.{bind_session, unbind_session, has_session}

bind-fields :
    (p : PlayerActor) (sid serial : ℕ)
    → sid ≢ invalid_sid
    → ((bind_session p sid serial).sid ≡ sid)
      × ((bind_session p sid serial).serial ≡ serial)
      × ((bind_session p sid serial).online ≡ true)
unfolding bind_session sync_projection_from_core_state sync_combat_projection_from_authoritative
bind-fields p sid serial real = elim (Option-cases p.core_state) [
  | inl e ↦ rw (e, bind_session) (refl, refl, refl)
  | inr (core, e) ↦ rw (e, bind_session) (refl, refl, ground arith)
]

bind-has_session :
    (p : PlayerActor) (sid serial : ℕ)
    → sid ≢ invalid_sid
    → has_session (bind_session p sid serial) ≡ true
unfolding has_session
bind-has_session p sid serial real =
    let f = bind-fields p sid serial real in rw (f.2, f.0) (ground arith)

unbind_stale :
    (p : PlayerActor) (sid serial : ℕ)
    → ¬ ((p.sid ≡ sid) × (p.serial ≡ serial))
    → unbind_session p sid serial ≡ p
unfolding unbind_session
unbind_stale p sid serial other =
    let stale : (not (p.sid == sid) || not (p.serial == serial)) ≡ true = ground arith in
    rw stale refl

unbind_own :
    (p : PlayerActor) (sid serial : ℕ)
    → p.sid ≡ sid
    → p.serial ≡ serial
    → has_session (unbind_session p sid serial) ≡ false
unfolding unbind_session has_session
unbind_own p sid serial es et =
    let own : (not (p.sid == sid) || not (p.serial == serial)) ≡ false = ground arith in
    elim (Option-cases p.core_state) [
      | inl e ↦ rw own (rw (e, unbind_session) refl)
      | inr (core, e) ↦ rw own (rw (e, unbind_session) refl)
    ]

-- For two sessions that differ in the sid or the serial, the second with a sid that is not the
-- invalid one: after the player was bound to the one and then the other, the first one's late
-- disconnect changes nothing and the player has a session; the second one's disconnect ends it.
pub late_disconnect :
    (p : PlayerActor) (sid serial sid' serial' : ℕ)
    → ¬ ((sid' ≡ sid) × (serial' ≡ serial))
    → sid' ≢ invalid_sid
    → let q = bind_session (bind_session p sid serial) sid' serial' in
      (unbind_session q sid serial ≡ q)
      × (has_session q ≡ true)
      × (has_session (unbind_session q sid' serial') ≡ false)
late_disconnect p sid serial sid' serial' other real =
    let p1 = bind_session p sid serial in
    let q = bind_session p1 sid' serial' in
    let f = bind-fields p1 sid' serial' real in
    (
      unbind_stale q sid serial (λ same. other (sym f.0 ∙ same.0, sym f.1 ∙ same.1)),
      bind-has_session p1 sid' serial' real,
      unbind_own q sid' serial' f.0 f.1,
    )

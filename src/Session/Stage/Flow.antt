-- ===== src/Session/Stage/Flow.antt =====
-- An enter-world flow: begin, bind, promote.
use new_server.Prelude.{
  ℕ, ◌<◌, ◌≡◌, refl, ap, ◌∙◌, ◌≢◌, inl, inr, true, false, ◌||◌, not, Option, none, some, List,
  arith, ◌==◌, Bool-cases, Option-cases, nat_eq,
}
use new_server.Session.Bind.Authority.{bind-Bound}
use new_server.Session.Tables.Consistent.{IsConsistent}
use new_server.Session.Bind.{bind_authenticated_world_session}
use new_server.Session.Key.{IsKey, is_valid_session_key, pack_session_key}
use new_server.Session.Types.{
  WorldAuthedSession, BeginEnterWorldSessionResult, WorldEnterStage,
  BeginEnterWorldSessionResultKind,
}
use new_server.Session.Tables.{WorldSessions}
use new_server.Session.Tables.Same.{SameTables-IsConsistent, SameTables, SameTables-refl}
use new_server.Session.Stage.{
  is_authed_as, is_enter_world_session_pending, names_key, is_pending_stage, can_promote,
  promote_enter_world_session_to_in_world, rejected_by_stage, held_by_other, begin_entry,
  try_begin_enter_world_session,
}
use new_server.Session.Stage.Moves.{stage-bind, stage_of}

pub IsKey-valid : (sid serial : ℕ) → IsKey sid serial → is_valid_session_key sid serial ≡ true
unfolding is_valid_session_key
IsKey-valid sid serial k = ground (arith, k.sid_pos, k.serial_pos)

begin_entry-SameTables :
    (w : WorldSessions) (key char_id : ℕ) → SameTables w (begin_entry w key char_id).0
unfolding begin_entry
begin_entry-SameTables w key char_id =
    elim (Bool-cases (held_by_other (w.pending_enter_session_key_by_char_id char_id) key)) [
      | inl e ↦ rw e (SameTables-refl w)
      | inr e ↦ rw e (record { sids = refl; chars = refl; accounts = refl })
    ]

pub begin-SameTables :
    (w : WorldSessions) (sid serial account_id char_id : ℕ)
    → SameTables w (try_begin_enter_world_session w sid serial account_id char_id).0
unfolding try_begin_enter_world_session
begin-SameTables w sid serial account_id char_id =
    let key = pack_session_key sid serial in
    elim (Bool-cases (not (is_valid_session_key sid serial) || account_id == 0 || char_id == 0)) [
      | inl bad ↦ rw bad (SameTables-refl w)
      | inr good ↦ elim (Option-cases (rejected_by_stage (stage_of w key))) [
        | inl e ↦ rw good (rw e (begin_entry-SameTables w key char_id))
        | inr (r, e) ↦ rw good (rw e (SameTables-refl w))
      ]
    ]

-- A begin that started has recorded the session as the one that enters with the char.
pub begin_started :
    (w : WorldSessions) (sid serial account_id char_id : ℕ)
    → let r = try_begin_enter_world_session w sid serial account_id char_id in
      r.1.kind ≡ BeginEnterWorldSessionResultKind.started
      → (r.0.world_enter_stage_by_session_key (pack_session_key sid serial)
          ≡ some WorldEnterStage.enter_pending)
        × (r.0.pending_enter_session_key_by_char_id char_id ≡ some (pack_session_key sid serial))
unfolding try_begin_enter_world_session rejected_by_stage
begin_started w sid serial account_id char_id h = ground arith

abbrev started : BeginEnterWorldSessionResultKind
started = BeginEnterWorldSessionResultKind.started

begin_entry-exclusive :
    (w : WorldSessions) (key other char_id : ℕ)
    → w.pending_enter_session_key_by_char_id char_id ≡ some key
    → key ≢ other
    → ((begin_entry w other char_id).1.kind ≢ started) × ((begin_entry w other char_id).0 ≡ w)
unfolding begin_entry held_by_other
begin_entry-exclusive w key other char_id h ne = ground arith

rejected-not-started :
    (stage : Option WorldEnterStage) (r : BeginEnterWorldSessionResult)
    → rejected_by_stage stage ≡ some r
    → r.kind ≢ started
unfolding rejected_by_stage
rejected-not-started none r h = cc
rejected-not-started (some s) r h = ground arith

-- While one session is recorded as entering with a char, no begin of another session with that char
-- starts, and the refused begin changes nothing.
pub begin_exclusive :
    (w : WorldSessions) (key sid serial account_id char_id : ℕ)
    → w.pending_enter_session_key_by_char_id char_id ≡ some key
    → key ≢ pack_session_key sid serial
    → let r = try_begin_enter_world_session w sid serial account_id char_id in
      (r.1.kind ≢ started) × (r.0 ≡ w)
unfolding try_begin_enter_world_session
begin_exclusive w key sid serial account_id char_id h ne =
    let other = pack_session_key sid serial in
    elim (Bool-cases (not (is_valid_session_key sid serial) || account_id == 0 || char_id == 0)) [
      | inl bad ↦ rw bad ((λ e. cc), refl)
      | inr good ↦ elim (Option-cases (rejected_by_stage (stage_of w other))) [
        | inl e ↦ rw good (rw e (begin_entry-exclusive w key other char_id h ne))
        | inr (r, e) ↦ rw good (rw e (rejected-not-started (stage_of w other) r e, refl))
      ]
    ]

abbrev after_begin : WorldSessions → ℕ → ℕ → ℕ → ℕ → WorldSessions
after_begin w sid serial account_id char_id =
    (try_begin_enter_world_session w sid serial account_id char_id).0

abbrev after_bind : WorldSessions → ℕ → ℕ → ℕ → ℕ → List ℕ → WorldSessions
after_bind w sid serial account_id char_id fresh_token =
    (bind_authenticated_world_session (after_begin w sid serial account_id char_id) account_id
      char_id sid serial fresh_token).0

-- The checks of a promotion hold for a session that is pending and bound.
can_promote_of :
    (w : WorldSessions) (sid serial char_id : ℕ) (x : WorldAuthedSession)
    → IsKey sid serial
    → 0 < char_id
    → w.world_enter_stage_by_session_key (pack_session_key sid serial)
      ≡ some WorldEnterStage.enter_pending
    → w.pending_enter_session_key_by_char_id char_id ≡ some (pack_session_key sid serial)
    → w.authed_sessions_by_sid sid ≡ some x
    → x.serial ≡ serial
    → x.char_id ≡ char_id
    → can_promote w sid serial char_id ≡ true
unfolding can_promote is_pending_stage names_key is_authed_as
can_promote_of w sid serial char_id x key has_char stage pending authed es ec =
    rw (IsKey-valid sid serial key, stage, pending, authed) (ground arith)

is_pending_of :
    (w : WorldSessions) (sid serial char_id : ℕ)
    → IsKey sid serial
    → 0 < char_id
    → w.world_enter_stage_by_session_key (pack_session_key sid serial)
      ≡ some WorldEnterStage.enter_pending
    → w.pending_enter_session_key_by_char_id char_id ≡ some (pack_session_key sid serial)
    → is_enter_world_session_pending w sid serial char_id ≡ true
unfolding is_enter_world_session_pending is_pending_stage names_key
is_pending_of w sid serial char_id key has_char stage pending =
    rw (IsKey-valid sid serial key, stage, pending) (ground arith)

promote_done :
    (w : WorldSessions) (sid serial char_id : ℕ)
    → can_promote w sid serial char_id ≡ true
    → let r = promote_enter_world_session_to_in_world w sid serial char_id in
      (r.1 ≡ true)
      × (r.0.world_enter_stage_by_session_key (pack_session_key sid serial)
          ≡ some WorldEnterStage.in_world)
      × (r.0.pending_enter_session_key_by_char_id char_id ≡ none)
unfolding promote_enter_world_session_to_in_world
promote_done w sid serial char_id h = rw h (refl, ground arith, ground arith)

not_pending_of :
    (w : WorldSessions) (sid serial char_id : ℕ)
    → w.pending_enter_session_key_by_char_id char_id ≡ none
    → is_enter_world_session_pending w sid serial char_id ≡ false
unfolding is_enter_world_session_pending names_key
not_pending_of w sid serial char_id h = rw h (ground arith)

-- On consistent tables, with ids that are not zero and a sid and serial of 32 bits: where a begin has
-- started and the bind is made, the session is pending, the promotion succeeds, the session is in the
-- world and nothing is pending for its char.
pub enter_flow :
    (w : WorldSessions) (sid serial account_id char_id : ℕ) (fresh_token : List ℕ)
    → IsConsistent w
    → IsKey sid serial
    → 0 < char_id
    → 0 < account_id
    → (try_begin_enter_world_session w sid serial account_id char_id).1.kind ≡ started
    → let bound = after_bind w sid serial account_id char_id fresh_token in
      let r = promote_enter_world_session_to_in_world bound sid serial char_id in
      (is_enter_world_session_pending bound sid serial char_id ≡ true)
      × (r.1 ≡ true)
      × (r.0.world_enter_stage_by_session_key (pack_session_key sid serial)
          ≡ some WorldEnterStage.in_world)
      × (r.0.pending_enter_session_key_by_char_id char_id ≡ none)
      × (is_enter_world_session_pending r.0 sid serial char_id ≡ false)
enter_flow w sid serial account_id char_id fresh_token v key has_char has_account begun =
    let w1 = after_begin w sid serial account_id char_id in
    let w2 = after_bind w sid serial account_id char_id fresh_token in
    let v1 = SameTables-IsConsistent (begin-SameTables w sid serial account_id char_id) v in
    let b = bind-Bound w1 account_id char_id sid serial fresh_token v1 key has_char has_account in
    let recorded = begin_started w sid serial account_id char_id begun in
    let kept = stage-bind w1 account_id char_id sid serial fresh_token in
    let k = pack_session_key sid serial in
    let stage : w2.world_enter_stage_by_session_key k ≡ some WorldEnterStage.enter_pending =
      ap (λ f. f k) kept.0 ∙ recorded.0 in
    let pending : w2.pending_enter_session_key_by_char_id char_id ≡ some k =
      ap (λ f. f char_id) kept.1 ∙ recorded.1 in
    let promotes =
      can_promote_of w2 sid serial char_id b.session key has_char stage pending b.present
        b.of_serial b.of_char in
    let done = promote_done w2 sid serial char_id promotes in
    let final = (promote_enter_world_session_to_in_world w2 sid serial char_id).0 in
    (
      is_pending_of w2 sid serial char_id key has_char stage pending,
      done.0,
      done.1,
      done.2,
      not_pending_of final sid serial char_id done.2,
    )

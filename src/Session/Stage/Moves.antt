-- ===== src/Session/Stage/Moves.antt =====
-- The moves of a session's stage: none, EnterPending, InWorld, Closing.
use new_server.Prelude.{
  ℕ, ◌≡◌, refl, sym, ap, ◌∙◌, inl, inr, true, ◌&&◌, ◌||◌, not, Option, none, some, List, arith,
  ◌==◌, Bool-cases, Option-cases, nat_eq,
}
use new_server.Session.Key.{is_valid_session_key, pack_session_key}
use new_server.Session.Types.{WorldAuthedSession, WorldEnterStage}
use new_server.Session.Tables.{WorldSessions, erase_authed_sid, erase_victim}
use new_server.Session.Bind.{
  same_session, evict_old, insert_session, replace_sessions, asked_session,
  bind_authenticated_world_session,
}
use new_server.Session.Unbind.{remove_session, unbind_authenticated_world_session_by_sid}
use new_server.Session.Stage.{
  rejected_by_stage, held_by_other, begin_entry, try_begin_enter_world_session, is_pending_stage,
  cancel_pending_enter_world_session, promote_enter_world_session_to_in_world, can_promote,
  mark_enter_world_session_closing,
}

-- A move of one session's stage from `a` to `b`.
pub data StageMove (a b : Option WorldEnterStage) : Type 0 where
  stay : b ≡ a → StageMove a b
  begin : rejected_by_stage a ≡ none → b ≡ some WorldEnterStage.enter_pending → StageMove a b
  cancel : a ≡ some WorldEnterStage.enter_pending → b ≡ none → StageMove a b
  promote :
      a ≡ some WorldEnterStage.enter_pending → b ≡ some WorldEnterStage.in_world → StageMove a b
  close : b ≡ some WorldEnterStage.closing → StageMove a b
  forget : b ≡ none → StageMove a b

pending_stage :
    (a : Option WorldEnterStage)
    → is_pending_stage a ≡ true
    → a ≡ some WorldEnterStage.enter_pending
unfolding is_pending_stage
pending_stage none h = cc
pending_stage (some s) h = ground arith

abbrev pub stage_of : WorldSessions → ℕ → Option WorldEnterStage
stage_of w key = w.world_enter_stage_by_session_key key

begin_entry-StageMove :
    (w : WorldSessions) (key char_id k : ℕ)
    → rejected_by_stage (stage_of w key) ≡ none
    → StageMove (stage_of w k) (stage_of (begin_entry w key char_id).0 k)
unfolding begin_entry
begin_entry-StageMove w key char_id k h =
    let held = held_by_other (w.pending_enter_session_key_by_char_id char_id) key in
    elim (Bool-cases held) [
      | inl e ↦ rw e (stay refl)
      | inr e ↦ elim (Bool-cases (key == k)) [
        | inl here ↦
            let same : key ≡ k = ground arith in
            rw e (rw here (begin (ap (λ j. rejected_by_stage (stage_of w j)) (sym same) ∙ h) refl))
        | inr far ↦ rw e (rw far (stay refl))
      ]
    ]

pub begin-StageMove :
    (w : WorldSessions) (sid serial account_id char_id k : ℕ)
    → StageMove
        (stage_of w k)
        (stage_of (try_begin_enter_world_session w sid serial account_id char_id).0 k)
unfolding try_begin_enter_world_session
begin-StageMove w sid serial account_id char_id k =
    elim (Bool-cases (not (is_valid_session_key sid serial) || account_id == 0 || char_id == 0)) [
      | inl bad ↦ rw bad (stay refl)
      | inr good ↦
          let key = pack_session_key sid serial in
          elim (Option-cases (rejected_by_stage (stage_of w key))) [
            | inl e ↦ rw good (rw e (begin_entry-StageMove w key char_id k e))
            | inr (r, e) ↦ rw good (rw e (stay refl))
          ]
    ]

pub cancel-StageMove :
    (w : WorldSessions) (sid serial char_id k : ℕ)
    → StageMove
        (stage_of w k)
        (stage_of (cancel_pending_enter_world_session w sid serial char_id) k)
unfolding cancel_pending_enter_world_session
cancel-StageMove w sid serial char_id k =
    let key = pack_session_key sid serial in
    elim (Bool-cases (is_valid_session_key sid serial)) [
      | inl good ↦ elim (Bool-cases (is_pending_stage (stage_of w key))) [
        | inl e ↦ elim (Bool-cases (key == k)) [
          | inl here ↦
              let same : key ≡ k = ground arith in
              rw good (
                rw e (
                  rw here
                    (cancel (ap (stage_of w) (sym same) ∙ pending_stage (stage_of w key) e) refl)))
          | inr far ↦ rw good (rw e (rw far (stay refl)))
        ]
        | inr e ↦ rw good (rw e (stay refl))
      ]
      | inr bad ↦ rw bad (stay refl)
    ]

can_promote-pending :
    (w : WorldSessions) (sid serial char_id : ℕ)
    → can_promote w sid serial char_id ≡ true
    → is_pending_stage (stage_of w (pack_session_key sid serial)) ≡ true
unfolding can_promote
can_promote-pending w sid serial char_id h = ground arith

pub promote-StageMove :
    (w : WorldSessions) (sid serial char_id k : ℕ)
    → StageMove
        (stage_of w k)
        (stage_of (promote_enter_world_session_to_in_world w sid serial char_id).0 k)
unfolding promote_enter_world_session_to_in_world
promote-StageMove w sid serial char_id k =
    let key = pack_session_key sid serial in
    elim (Bool-cases (can_promote w sid serial char_id)) [
      | inl good ↦ elim (Bool-cases (key == k)) [
        | inl here ↦
            let same : key ≡ k = ground arith in
            let was =
              pending_stage (stage_of w key) (can_promote-pending w sid serial char_id good) in
            rw good (rw here (promote (ap (stage_of w) (sym same) ∙ was) refl))
        | inr far ↦ rw good (rw far (stay refl))
      ]
      | inr bad ↦ rw bad (stay refl)
    ]

pub close-StageMove :
    (w : WorldSessions) (sid serial k : ℕ)
    → StageMove (stage_of w k) (stage_of (mark_enter_world_session_closing w sid serial) k)
unfolding mark_enter_world_session_closing
close-StageMove w sid serial k = elim (Bool-cases (is_valid_session_key sid serial)) [
  | inl good ↦ elim (Bool-cases (pack_session_key sid serial == k)) [
    | inl here ↦ rw good (rw here (close refl))
    | inr far ↦ rw good (rw far (stay refl))
  ]
  | inr bad ↦ rw bad (stay refl)
]

-- The stages and the pending entries of two tables are the same.
abbrev pub SameStages : WorldSessions → WorldSessions → Type 0
SameStages w w' =
    (w'.world_enter_stage_by_session_key ≡ w.world_enter_stage_by_session_key)
    × (w'.pending_enter_session_key_by_char_id ≡ w.pending_enter_session_key_by_char_id)

SameStages-trans : (a b c : WorldSessions) → SameStages a b → SameStages b c → SameStages a c
SameStages-trans a b c h k = (k.0 ∙ h.0, k.1 ∙ h.1)

pub stage-erase_authed_sid : (w : WorldSessions) (s : ℕ) → SameStages w (erase_authed_sid w s)
unfolding erase_authed_sid erase_victim
stage-erase_authed_sid w s = elim (Option-cases (w.authed_sessions_by_sid s)) [
  | inl e ↦ rw (e, erase_authed_sid) (refl, refl)
  | inr (x, e) ↦ rw (e, erase_authed_sid) (refl, refl)
]

stage-evict_old : (w : WorldSessions) (x y : WorldAuthedSession) → SameStages w (evict_old w x y)
unfolding evict_old
stage-evict_old w x y =
    let far = not (y.sid == 0) && not (y.sid == x.sid) in
    let w' = erase_authed_sid w x.sid in
    elim (Bool-cases (x.sid == 0)) [
      | inl e ↦ elim (Bool-cases far) [
        | inl f ↦ rw e (rw f (stage-erase_authed_sid w y.sid))
        | inr f ↦ rw e (rw f (refl, refl))
      ]
      | inr e ↦ elim (Bool-cases far) [
        | inl f ↦ rw e (
            rw f (
              SameStages-trans w w' (erase_authed_sid w' y.sid) (stage-erase_authed_sid w x.sid)
                (stage-erase_authed_sid w' y.sid)))
        | inr f ↦ rw e (rw f (stage-erase_authed_sid w x.sid))
      ]
    ]

stage-replace_sessions :
    (w : WorldSessions) (asked : WorldAuthedSession) (fresh : List ℕ)
    → SameStages w (replace_sessions w asked fresh).0
unfolding replace_sessions insert_session
stage-replace_sessions w asked fresh = stage-evict_old w _ _

-- A bind leaves the stages and the pending entries alone.
pub stage-bind :
    (w : WorldSessions) (account_id char_id sid serial : ℕ) (fresh_token : List ℕ)
    → SameStages w (bind_authenticated_world_session w account_id char_id sid serial fresh_token).0
unfolding bind_authenticated_world_session
stage-bind w account_id char_id sid serial fresh_token =
    let bad = account_id == 0 || char_id == 0 || sid == 0 || serial == 0 in
    let asked = asked_session account_id char_id sid serial in
    let w' = erase_authed_sid w sid in
    let same = same_session (w.authed_sessions_by_sid sid) account_id char_id serial in
    elim (Bool-cases bad) [
      | inl e ↦ rw e (refl, refl)
      | inr e ↦ elim (Bool-cases same) [
        | inl f ↦ rw (e, f) (refl, refl)
        | inr f ↦
            rw (e, f)
              (SameStages-trans w w' (replace_sessions w' asked fresh_token).0
                (stage-erase_authed_sid w sid) (stage-replace_sessions w' asked fresh_token))
      ]
    ]

pub bind-StageMove :
    (w : WorldSessions) (account_id char_id sid serial : ℕ) (fresh_token : List ℕ) (k : ℕ)
    → StageMove (stage_of w k) (
        stage_of (bind_authenticated_world_session w account_id char_id sid serial fresh_token).0 k)
bind-StageMove w account_id char_id sid serial fresh_token k =
    stay (ap (λ f. f k) (stage-bind w account_id char_id sid serial fresh_token).0)

remove_session-StageMove :
    (w : WorldSessions) (x : WorldAuthedSession) (sid serial k : ℕ)
    → StageMove (stage_of w k) (stage_of (remove_session w x sid serial) k)
unfolding remove_session
remove_session-StageMove w x sid serial k = elim (Bool-cases (pack_session_key sid serial == k)) [
  | inl here ↦ rw here (forget refl)
  | inr far ↦ rw far (stay refl)
]

pub unbind-StageMove :
    (w : WorldSessions) (sid serial k : ℕ)
    → StageMove
        (stage_of w k)
        (stage_of (unbind_authenticated_world_session_by_sid w sid serial).0 k)
unfolding unbind_authenticated_world_session_by_sid
unbind-StageMove w sid serial k = elim (Bool-cases (is_valid_session_key sid serial)) [
  | inl good ↦ elim (Option-cases (w.authed_sessions_by_sid sid)) [
    | inl e ↦ rw (good, e, unbind_authenticated_world_session_by_sid) (stay refl)
    | inr (x, e) ↦ elim (Bool-cases (x.serial == serial)) [
      | inl same ↦
          rw (good, e, unbind_authenticated_world_session_by_sid, same)
            (remove_session-StageMove w x sid serial k)
      | inr other ↦ rw (good, e, unbind_authenticated_world_session_by_sid, other) (stay refl)
    ]
  ]
  | inr bad ↦ rw bad (stay refl)
]

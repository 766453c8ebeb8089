-- ===== src/Session/History/Kept.antt =====
-- The operations on the session tables, and the invariant or the tables that each keeps.
use new_server.Prelude.{
  ℕ, ◌<◌, ◌≡◌, refl, inl, inr, false, ◌||◌, List, arith, ◌==◌, Bool-cases, u32_mod, nat_eq,
}
use new_server.Session.Key.{IsKey, is_valid_session_key}
use new_server.Session.Types.{WorldSessionCloseReason}
use new_server.Session.Tables.{WorldSessions}
use new_server.Session.Tables.Consistent.{IsConsistent}
use new_server.Session.Tables.Same.{SameTables, SameTables-refl}
use new_server.Session.Bind.{bind_authenticated_world_session}
use new_server.Session.Bind.Authority.{bind-Bound, bind_invalid_input}
use new_server.Session.Stage.{
  cancel_pending_enter_world_session, promote_enter_world_session_to_in_world,
  mark_enter_world_session_closing, mark_world_session_close_reason, can_promote,
}
use new_server.Session.Pending.{abort_stage}
use new_server.Session.Lifecycle.{forget_stage}
use new_server.Session.History.{initial_sessions}

pub initial_sessions-IsConsistent : IsConsistent initial_sessions
initial_sessions-IsConsistent = record {
  owns = λ s x h. cc;
  char_names = λ c k h. cc;
  account_names = λ a k h. cc;
}

valid-IsKey :
    (account_id char_id sid serial : ℕ)
    → (account_id == 0 || char_id == 0 || sid == 0 || serial == 0) ≡ false
    → sid < u32_mod
    → serial < u32_mod
    → (IsKey sid serial) × (0 < char_id) × (0 < account_id)
valid-IsKey account_id char_id sid serial h hs ht = (
  record { sid_pos = ground arith; sid_fits = hs; serial_pos = ground arith; serial_fits = ht },
  ground arith,
  ground arith,
)

pub bind-IsConsistent :
    (w : WorldSessions) (account_id char_id sid serial : ℕ) (token : List ℕ)
    → IsConsistent w
    → sid < u32_mod
    → serial < u32_mod
    → IsConsistent (bind_authenticated_world_session w account_id char_id sid serial token).0
bind-IsConsistent w account_id char_id sid serial token v hs ht =
    elim (Bool-cases (account_id == 0 || char_id == 0 || sid == 0 || serial == 0)) [
      | inl bad ↦ rw ((bind_invalid_input w account_id char_id sid serial token bad).0) v
      | inr good ↦
          let k = valid-IsKey account_id char_id sid serial good hs ht in
          (bind-Bound w account_id char_id sid serial token v k.0 k.1 k.2).consistent
    ]

pub cancel-SameTables :
    (w : WorldSessions) (sid serial char_id : ℕ)
    → SameTables w (cancel_pending_enter_world_session w sid serial char_id)
unfolding cancel_pending_enter_world_session
cancel-SameTables w sid serial char_id = elim (Bool-cases (is_valid_session_key sid serial)) [
  | inl e ↦ rw e (record { sids = refl; chars = refl; accounts = refl })
  | inr e ↦ rw e (SameTables-refl w)
]

pub promote-SameTables :
    (w : WorldSessions) (sid serial char_id : ℕ)
    → SameTables w (promote_enter_world_session_to_in_world w sid serial char_id).0
unfolding promote_enter_world_session_to_in_world
promote-SameTables w sid serial char_id = elim (Bool-cases (can_promote w sid serial char_id)) [
  | inl e ↦ rw e (record { sids = refl; chars = refl; accounts = refl })
  | inr e ↦ rw e (SameTables-refl w)
]

pub mark_closing-SameTables :
    (w : WorldSessions) (sid serial : ℕ)
    → SameTables w (mark_enter_world_session_closing w sid serial)
unfolding mark_enter_world_session_closing
mark_closing-SameTables w sid serial = elim (Bool-cases (is_valid_session_key sid serial)) [
  | inl e ↦ rw e (record { sids = refl; chars = refl; accounts = refl })
  | inr e ↦ rw e (SameTables-refl w)
]

pub mark_reason-SameTables :
    (w : WorldSessions) (sid serial : ℕ) (reason : WorldSessionCloseReason)
    → SameTables w (mark_world_session_close_reason w sid serial reason)
unfolding mark_world_session_close_reason
mark_reason-SameTables w sid serial reason = elim (Bool-cases (is_valid_session_key sid serial)) [
  | inl e ↦ rw e (record { sids = refl; chars = refl; accounts = refl })
  | inr e ↦ rw e (SameTables-refl w)
]

pub forget_stage-SameTables :
    (w : WorldSessions) (sid serial : ℕ) → SameTables w (forget_stage w sid serial)
unfolding forget_stage
forget_stage-SameTables w sid serial = record { sids = refl; chars = refl; accounts = refl }

pub abort_stage-SameTables :
    (w : WorldSessions) (sid serial : ℕ) → SameTables w (abort_stage w sid serial)
unfolding abort_stage
abort_stage-SameTables w sid serial = record { sids = refl; chars = refl; accounts = refl }

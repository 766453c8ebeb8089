-- ===== src/Session/Unbind/Removal.antt =====
-- The tables after an unbind.
use new_server.Prelude.{
  ℕ, ◌≡◌, refl, sym, ap, ◌∙◌, ◌≢◌, ◌↔◌, inl, inr, false, some, arith, ◌==◌, Bool-cases,
  Option-cases, nat_eq,
}
use new_server.Session.Key.{is_valid_session_key}
use new_server.Session.Types.{WorldAuthedSession}
use new_server.Session.Tables.{WorldSessions}
use new_server.Session.Tables.Consistent.{Owns, IsConsistent}
use new_server.Session.Tables.Erase.{Erased, Erased-IsConsistent, erase_index-hit}
use new_server.Session.Unbind.{remove_session, unbind_authenticated_world_session_by_sid}

remove_session-Erased :
    (w : WorldSessions) (x : WorldAuthedSession) (sid serial : ℕ)
    → x.serial ≡ serial
    → Owns w sid x
    → Erased w (remove_session w x sid serial) sid x
unfolding remove_session
remove_session-Erased w x sid serial e o = record {
  sids = λ j. refl;
  chars =
      erase_index-hit w.authed_session_key_by_char_id x.char_id sid serial o.has_char
        (cc (o.char_index, o.at_sid));
  accounts =
      erase_index-hit w.authed_session_key_by_account_id x.account_id sid serial o.has_account
        (cc (o.account_index, o.at_sid));
}

-- The outcomes of an unbind on consistent tables: the session goes, or nothing does.
pub data Outcome (w : WorldSessions) (sid serial : ℕ) (w' : WorldSessions) : Type 0 where
  gone :
      (x : WorldAuthedSession)
      → w.authed_sessions_by_sid sid ≡ some x
      → x.serial ≡ serial
      → Erased w w' sid x
      → Outcome w sid serial w'
  unchanged :
      w' ≡ w
      → ((x : WorldAuthedSession) → w.authed_sessions_by_sid sid ≡ some x → x.serial ≢ serial)
      → Outcome w sid serial w'

no_session_under :
    {w : WorldSessions} (v : IsConsistent w) (sid serial : ℕ)
    → is_valid_session_key sid serial ≡ false
    → (x : WorldAuthedSession) → w.authed_sessions_by_sid sid ≡ some x
    → x.serial ≢ serial
unfolding is_valid_session_key
no_session_under v sid serial bad x h e =
    let o = v.owns sid x h in ground (arith, o.at_sid, o.key.sid_pos, o.key.serial_pos)

pub unbind-Outcome :
    (w : WorldSessions) (sid serial : ℕ)
    → IsConsistent w
    → Outcome w sid serial (unbind_authenticated_world_session_by_sid w sid serial).0
unfolding unbind_authenticated_world_session_by_sid
unbind-Outcome w sid serial v = elim (Bool-cases (is_valid_session_key sid serial)) [
  | inl good ↦ elim (Option-cases (w.authed_sessions_by_sid sid)) [
    | inl e ↦ rw (good, e, unbind_authenticated_world_session_by_sid) (unchanged refl (λ x h. cc))
    | inr (x, e) ↦ elim (Bool-cases (x.serial == serial)) [
      | inl same ↦
          let serial_eq : x.serial ≡ serial = ground arith in
          rw (good, e, unbind_authenticated_world_session_by_sid, same)
            (gone x e serial_eq (remove_session-Erased w x sid serial serial_eq (v.owns sid x e)))
      | inr other ↦
          let serial_ne : x.serial ≢ serial = ground arith in
          rw (good, e, unbind_authenticated_world_session_by_sid, other)
            (unchanged refl (λ y h. ground arith))
    ]
  ]
  | inr bad ↦ rw bad (unchanged refl (no_session_under v sid serial bad))
]

-- An unbind, whatever its arguments, keeps consistent tables consistent.
pub unbind-IsConsistent :
    (w : WorldSessions) (sid serial : ℕ)
    → IsConsistent w
    → IsConsistent (unbind_authenticated_world_session_by_sid w sid serial).0
unbind-IsConsistent w sid serial v = elim (unbind-Outcome w sid serial v) [
  | gone x h e er ↦ Erased-IsConsistent v h er
  | unchanged e none_under ↦ rw e v
]

-- On consistent tables an unbind, whatever its arguments, keeps exactly the sessions that do not
-- have both the sid and the serial: a stale serial unbinds nothing.
pub unbind_exact :
    (w : WorldSessions) (sid serial s : ℕ) (y : WorldAuthedSession)
    → IsConsistent w
    → ((unbind_authenticated_world_session_by_sid w sid serial).0.authed_sessions_by_sid s ≡ some y)
      ↔ ((w.authed_sessions_by_sid s ≡ some y) × ¬ ((s ≡ sid) × (y.serial ≡ serial)))
unbind_exact w sid serial s y v = elim (unbind-Outcome w sid serial v) [
  | gone x h e er ↦ (
    λ hy. (ground (arith, er.sids s), λ t. ground (arith, er.sids s)),
    λ t. elim (Bool-cases (sid == s)) [
      | inl here ↦
          let at : s ≡ sid = ground arith in
          let same : x ≡ y = cc (h, t.0, at) in absurd (t.1 (at, rw (← same) e))
      | inr far ↦ ground (arith, er.sids s)
    ],
  )
  | unchanged e none_under ↦ (
    λ hy.
        let hy' : w.authed_sessions_by_sid s ≡ some y = rw e at hy in
        (hy', λ t. none_under y (ap w.authed_sessions_by_sid (sym t.0) ∙ hy') t.1),
    λ t. rw e t.0,
  )
]

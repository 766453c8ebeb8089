-- ===== src/Session/Reconnect/Takeover.antt =====
-- The tables after a reconnect that takes a session over to a new sid.
use new_server.Prelude.{
  ℕ, ◌≡◌, refl, sym, ap, ◌∙◌, fun_ext, ◌≢◌, inl, inr, ◌||◌, not, none, some, List, [], arith, Map,
  put, if◌then◌else◌, ◌==◌, Bool-cases, Option-cases, nat_eq, bytes_eq,
}
use new_server.Session.Key.{
  is_valid_session_key, unpack_session_serial, unpack_session_sid, IsKey, pack_session_key,
}
use new_server.Session.Types.{WorldAuthedSession}
use new_server.Session.Tables.{find_by_key, WorldSessions, erase_authed_sid}
use new_server.Session.Tables.Consistent.{find_by_key-at, Owns, IsConsistent}
use new_server.Session.Tables.Same.{SameTables, SameTables-IsConsistent}
use new_server.Session.Tables.Erase.{Erased, erase_authed_sid-Erased, erase_authed_sid-IsConsistent}
use new_server.Session.Bind.{asked_session, insert_session}
use new_server.Session.Bind.Insert.{IsFree, insert_session-IsConsistent}
use new_server.Session.Reconnect.{
  reconnect_sessions, ReconnectWorldResultCode, reconnect_key, reconnect_mismatch, move_session,
}

put_over_erase :
    (m m' : Map ℕ ℕ) (id key : ℕ)
    → ((j : ℕ) → m' j ≡ (if id == j then none else m j))
    → put m id key ≡ put m' id key
put_over_erase m m' id key h = fun_ext (λ j. ground (arith, h j))

module _ (w : WorldSessions) (previous : WorldAuthedSession) (sid serial : ℕ) (v : IsConsistent w)
    (at : w.authed_sessions_by_sid previous.sid ≡ some previous) (key : IsKey sid serial)
    (free : (previous.sid ≢ sid) → w.authed_sessions_by_sid sid ≡ none) where
  abbrev taken : WorldAuthedSession
  taken = record previous { sid = sid; serial = serial }

  abbrev left : WorldSessions
  left = erase_authed_sid w previous.sid

  o : Owns w previous.sid previous
  o = v.owns previous.sid previous at

  er : Erased w left previous.sid previous
  er = erase_authed_sid-Erased w previous.sid previous o at

  left-IsFree : IsFree left taken
  left-IsFree = record {
    sid_free = elim (Bool-cases (previous.sid == sid)) [
      | inl here ↦ er.sids sid ∙ rw here refl
      | inr far ↦ er.sids sid ∙ rw far (free (ground arith))
    ];
    char_free = ground (arith, er.chars previous.char_id);
    account_free = ground (arith, er.accounts previous.account_id);
  }

  move_session-SameTables :
      SameTables (insert_session left taken) (move_session w previous sid serial)
  unfolding insert_session move_session
  move_session-SameTables = record {
    sids = fun_ext (λ j. ground (arith, er.sids j));
    chars =
        put_over_erase w.authed_session_key_by_char_id left.authed_session_key_by_char_id
          previous.char_id (pack_session_key sid serial) er.chars;
    accounts =
        put_over_erase w.authed_session_key_by_account_id left.authed_session_key_by_account_id
          previous.account_id (pack_session_key sid serial) er.accounts;
  }

  pub move_session-IsConsistent : IsConsistent (move_session w previous sid serial)
  move_session-IsConsistent = SameTables-IsConsistent move_session-SameTables (
      insert_session-IsConsistent (erase_authed_sid-IsConsistent w previous.sid v) left-IsFree key
        o.has_char o.has_account)

-- What a reconnect that succeeds has found and done.
record Success (w w' : WorldSessions) (account_id char_id sid serial : ℕ) : Type 0 where
  key : ℕ
  found : WorldAuthedSession
  named : find_by_key w (some key) ≡ some found
  of_account : found.account_id ≡ account_id
  of_char : found.char_id ≡ char_id
  moved :
      w'
      ≡ move_session w
          (record found { sid = unpack_session_sid key; serial = unpack_session_serial key })
          sid
          serial

mismatch-fields :
    (x : WorldAuthedSession) (account_id char_id : ℕ) (token : List ℕ)
    → reconnect_mismatch x account_id char_id token ≡ none
    → (x.account_id ≡ account_id) × (x.char_id ≡ char_id)
unfolding reconnect_mismatch
mismatch-fields x account_id char_id token h = ground arith

mismatch-fails :
    (x : WorldAuthedSession) (account_id char_id : ℕ) (token : List ℕ)
    → reconnect_mismatch x account_id char_id token ≢ some ReconnectWorldResultCode.success
unfolding reconnect_mismatch
mismatch-fails x account_id char_id token h = ground arith

reconnect_key-Success :
    (w : WorldSessions) (asked : WorldAuthedSession) (token : List ℕ) (key : ℕ)
    → (reconnect_key w asked token key).1.code ≡ ReconnectWorldResultCode.success
    → Success w
        (reconnect_key w asked token key).0
        asked.account_id
        asked.char_id
        asked.sid
        asked.serial
unfolding reconnect_key
reconnect_key-Success w asked token key h = elim (Option-cases (find_by_key w (some key))) [
  | inl e ↦ absurd (cc (rw (e, reconnect_key) at h))
  | inr (found, e) ↦
      elim (Option-cases (reconnect_mismatch found asked.account_id asked.char_id token)) [
        | inl fits ↦
            let f = mismatch-fields found asked.account_id asked.char_id token fits in
            rw (e, reconnect_key)
              (rw fits (record {
                key = key;
                found = found;
                named = e;
                of_account = f.0;
                of_char = f.1;
                moved = refl;
              }))
        | inr (code, bad) ↦
            let h' = rw (e, reconnect_key) at h in
            let is_success : code ≡ ReconnectWorldResultCode.success = rw bad at h' in
            absurd
              (mismatch-fails found asked.account_id asked.char_id token (bad ∙ ap some is_success))
      ]
]

reconnect_sessions-Success :
    (w : WorldSessions) (account_id char_id : ℕ) (token : List ℕ) (sid serial : ℕ)
    → (reconnect_sessions w account_id char_id token sid serial).1.code
      ≡ ReconnectWorldResultCode.success
    → Success w
        (reconnect_sessions w account_id char_id token sid serial).0
        account_id
        char_id
        sid
        serial
unfolding reconnect_sessions
reconnect_sessions-Success w account_id char_id token sid serial h =
    let refused =
      not (is_valid_session_key sid serial) || account_id == 0 || char_id == 0 || token == [] in
    elim (Bool-cases refused) [
      | inl bad ↦ absurd (cc (rw bad at h))
      | inr good ↦ elim (Option-cases (w.reconnect_session_key_by_token token)) [
        | inl e ↦ absurd (cc (rw (good, e) at h))
        | inr (key, e) ↦ rw good (
            rw e (
              reconnect_key-Success w (asked_session account_id char_id sid serial) token key
                (rw e at (rw good at h))))
      ]
    ]

-- The outcome of a takeover by (sid, serial).
pub record TakenOver (w w' : WorldSessions) (account_id char_id sid serial : ℕ) : Type 0 where
  pub consistent : IsConsistent w'
  pub previous : WorldAuthedSession
  pub was : w.authed_sessions_by_sid previous.sid ≡ some previous
  pub of_account : previous.account_id ≡ account_id
  pub of_char : previous.char_id ≡ char_id
  pub bound : w'.authed_sessions_by_sid sid ≡ some (record previous { sid = sid; serial = serial })
  pub gone : (previous.sid ≢ sid) → w'.authed_sessions_by_sid previous.sid ≡ none
  pub others :
      (s : ℕ)
      → sid ≢ s
      → previous.sid ≢ s
      → w'.authed_sessions_by_sid s ≡ w.authed_sessions_by_sid s

move_session-TakenOver :
    (w : WorldSessions) (previous : WorldAuthedSession) (sid serial : ℕ)
    → IsConsistent w
    → w.authed_sessions_by_sid previous.sid ≡ some previous
    → IsKey sid serial
    → ((previous.sid ≢ sid) → w.authed_sessions_by_sid sid ≡ none)
    → TakenOver w
        (move_session w previous sid serial)
        previous.account_id
        previous.char_id
        sid
        serial
unfolding move_session
move_session-TakenOver w previous sid serial v at key free = record {
  consistent = move_session-IsConsistent w previous sid serial v at key free;
  previous = previous;
  was = at;
  of_account = refl;
  of_char = refl;
  bound = ground arith;
  gone = λ far. ground arith;
  others = λ s a b. ground arith;
}

-- The key's halves are the found session's own.
found-same :
    (w : WorldSessions) (key : ℕ) (found : WorldAuthedSession)
    → IsConsistent w
    → find_by_key w (some key) ≡ some found
    → ((record found { sid = unpack_session_sid key; serial = unpack_session_serial key }) ≡ found)
      × (w.authed_sessions_by_sid found.sid ≡ some found)
found-same w key found v named =
    let at = find_by_key-at w key found named in
    let o = v.owns (unpack_session_sid key) found at.0 in
    let p : unpack_session_sid key ≡ found.sid = sym o.at_sid in
    let q : unpack_session_serial key ≡ found.serial = sym at.1 in
    (λ i. record found { sid = p i; serial = q i }, ap w.authed_sessions_by_sid o.at_sid ∙ at.0)

-- A reconnect that succeeds moves a bound session of the account and the char.
pub success-moved :
    (w : WorldSessions) (account_id char_id : ℕ) (token : List ℕ) (sid serial : ℕ)
    → IsConsistent w
    → (reconnect_sessions w account_id char_id token sid serial).1.code
      ≡ ReconnectWorldResultCode.success
    → (found : WorldAuthedSession) × (w.authed_sessions_by_sid found.sid ≡ some found)
      × (found.account_id ≡ account_id)
      × (found.char_id ≡ char_id)
      × ((reconnect_sessions w account_id char_id token sid serial).0
          ≡ move_session w found sid serial)
success-moved w account_id char_id token sid serial v h =
    let s = reconnect_sessions-Success w account_id char_id token sid serial h in
    let (same, at) = found-same w s.key s.found v s.named in
    (s.found, at, s.of_account, s.of_char, s.moved ∙ ap (λ x. move_session w x sid serial) same)

-- On consistent tables, with a sid and serial of 32 bits and nothing bound under the sid: a
-- reconnect that succeeds keeps the tables consistent and moves the session of the account and the
-- char to the sid and serial, with its token; its old sid is free, and no other sid changes.
pub reconnect-TakenOver :
    (w : WorldSessions) (account_id char_id : ℕ) (token : List ℕ) (sid serial : ℕ)
    → IsConsistent w
    → IsKey sid serial
    → w.authed_sessions_by_sid sid ≡ none
    → (reconnect_sessions w account_id char_id token sid serial).1.code
      ≡ ReconnectWorldResultCode.success
    → TakenOver w
        (reconnect_sessions w account_id char_id token sid serial).0
        account_id
        char_id
        sid
        serial
reconnect-TakenOver w account_id char_id token sid serial v key free h =
    let (found, at, of_account, of_char, moved) =
      success-moved w account_id char_id token sid serial v h in
    rw moved (
      rw (← of_account, ← of_char)
        (move_session-TakenOver w found sid serial v at key (λ far. free)))

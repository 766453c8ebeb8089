-- ===== src/Session/History/Single.antt =====
-- Sessions of one account or one char, over whole histories.
use new_server.Prelude.{
  ℕ, ◌<◌, ◌≡◌, refl, ◌⊎◌, inl, inr, Bool, true, false, ◌||◌, not, none, some, List, [], arith, ◌==◌,
  Bool-cases, Option-cases, u32_mod, nat_eq, bytes_eq,
}
use new_server.Session.History.Token.{get_or_create-IsConsistent}
use new_server.Session.Key.{IsKey, is_valid_session_key}
use new_server.Session.Types.{WorldAuthedSession}
use new_server.Session.Tables.{WorldSessions, find_by_key}
use new_server.Session.Tables.Consistent.{IsConsistent, same_char-same_sid, same_account-same_sid}
use new_server.Session.Tables.Same.{SameTables, SameTables-refl, SameTables-IsConsistent}
use new_server.Session.Bind.{asked_session}
use new_server.Session.Unbind.Removal.{unbind-IsConsistent}
use new_server.Session.Stage.Flow.{begin-SameTables}
use new_server.Session.Reconnect.{
  reconnect_sessions, reconnect_key, reconnect_mismatch, ReconnectWorldResultCode,
}
use new_server.Session.Reconnect.Takeover.{reconnect-TakenOver}
use new_server.Session.History.{
  Step, Reachable, start, after, bind, unbind, begin, cancel, promote, mark_closing, mark_reason,
  abort, forget, get_token, reconnect,
}
use new_server.Session.History.Kept.{
  initial_sessions-IsConsistent, bind-IsConsistent, cancel-SameTables, promote-SameTables,
  mark_closing-SameTables, mark_reason-SameTables, forget_stage-SameTables, abort_stage-SameTables,
}

not_refused : (a b c d : Bool) → (not a || b || c || d) ≡ false → a ≡ true
not_refused true b c d h = refl
not_refused false b c d h = cc

valid-IsKey :
    (sid serial : ℕ)
    → is_valid_session_key sid serial ≡ true
    → sid < u32_mod
    → serial < u32_mod
    → IsKey sid serial
unfolding is_valid_session_key
valid-IsKey sid serial h hs ht = record {
  sid_pos = ground arith;
  sid_fits = hs;
  serial_pos = ground arith;
  serial_fits = ht;
}

-- A reconnect succeeds, for a valid key, or leaves the sessions and their indexes alone.
reconnect_key-cases :
    (w : WorldSessions) (asked : WorldAuthedSession) (token : List ℕ) (key : ℕ)
    → ((reconnect_key w asked token key).1.code ≡ ReconnectWorldResultCode.success)
      ⊎ SameTables w (reconnect_key w asked token key).0
unfolding reconnect_key
reconnect_key-cases w asked token key = elim (Option-cases (find_by_key w (some key))) [
  | inl e ↦ rw (e, reconnect_key) (inr (record { sids = refl; chars = refl; accounts = refl }))
  | inr (found, e) ↦
      elim (Option-cases (reconnect_mismatch found asked.account_id asked.char_id token)) [
        | inl fits ↦ rw (e, reconnect_key) (rw fits (inl refl))
        | inr (code, bad) ↦ rw (e, reconnect_key) (rw bad (inr (SameTables-refl w)))
      ]
]

reconnect_sessions-cases :
    (w : WorldSessions) (account_id char_id : ℕ) (token : List ℕ) (sid serial : ℕ)
    → let r = reconnect_sessions w account_id char_id token sid serial in
      ((r.1.code ≡ ReconnectWorldResultCode.success) × (is_valid_session_key sid serial ≡ true))
      ⊎ SameTables w r.0
unfolding reconnect_sessions
reconnect_sessions-cases w account_id char_id token sid serial =
    let refused =
      not (is_valid_session_key sid serial) || account_id == 0 || char_id == 0 || token == [] in
    elim (Bool-cases refused) [
      | inl bad ↦ rw bad (inr (SameTables-refl w))
      | inr good ↦ elim (Option-cases (w.reconnect_session_key_by_token token)) [
        | inl e ↦ rw (good, e) (inr (SameTables-refl w))
        | inr (key, e) ↦
            let asked = asked_session account_id char_id sid serial in
            let valid : is_valid_session_key sid serial ≡ true = not_refused _ _ _ _ good in
            rw good (
              rw e (elim (reconnect_key-cases w asked token key) [
                | inl ok ↦ inl (ok, valid)
                | inr same ↦ inr same
              ]))
      ]
    ]

reconnect-IsConsistent :
    (w : WorldSessions) (account_id char_id : ℕ) (token : List ℕ) (sid serial : ℕ)
    → IsConsistent w
    → sid < u32_mod
    → serial < u32_mod
    → w.authed_sessions_by_sid sid ≡ none
    → IsConsistent (reconnect_sessions w account_id char_id token sid serial).0
reconnect-IsConsistent w account_id char_id token sid serial v hs ht free =
    elim (reconnect_sessions-cases w account_id char_id token sid serial) [
      | inl ok ↦
          (reconnect-TakenOver w account_id char_id token sid serial v
            (valid-IsKey sid serial ok.1 hs ht) free ok.0).consistent
      | inr same ↦ SameTables-IsConsistent same v
    ]

Step-IsConsistent : (w w' : WorldSessions) → Step w w' → IsConsistent w → IsConsistent w'
Step-IsConsistent w w' (bind a c s t token hs ht) v = bind-IsConsistent w a c s t token v hs ht
Step-IsConsistent w w' (unbind s t) v = unbind-IsConsistent w s t v
Step-IsConsistent w w' (begin s t a c) v = SameTables-IsConsistent (begin-SameTables w s t a c) v
Step-IsConsistent w w' (cancel s t c) v = SameTables-IsConsistent (cancel-SameTables w s t c) v
Step-IsConsistent w w' (promote s t c) v = SameTables-IsConsistent (promote-SameTables w s t c) v
Step-IsConsistent w w' (mark_closing s t) v =
    SameTables-IsConsistent (mark_closing-SameTables w s t) v
Step-IsConsistent w w' (mark_reason s t r) v =
    SameTables-IsConsistent (mark_reason-SameTables w s t r) v
Step-IsConsistent w w' (abort s t) v = SameTables-IsConsistent (abort_stage-SameTables w s t) v
Step-IsConsistent w w' (forget s t) v = SameTables-IsConsistent (forget_stage-SameTables w s t) v
Step-IsConsistent w w' (get_token s t fresh) v = get_or_create-IsConsistent w s t fresh v
Step-IsConsistent w w' (reconnect a c token s t hs ht free) v =
    reconnect-IsConsistent w a c token s t v hs ht free

Reachable-IsConsistent : (w : WorldSessions) → Reachable w → IsConsistent w
Reachable-IsConsistent w start = initial_sessions-IsConsistent
Reachable-IsConsistent w (after w0 w1 r step) =
    Step-IsConsistent w0 w step (Reachable-IsConsistent w0 r)

-- After any sequence of operations on the empty tables, with sids and serials of 32 bits and no
-- reconnect from a socket that has a session: two bound sessions of the same account, or of the same
-- char, stand under the same sid.
pub single_active_session :
    (w : WorldSessions) (s t : ℕ) (x y : WorldAuthedSession)
    → Reachable w
    → w.authed_sessions_by_sid s ≡ some x
    → w.authed_sessions_by_sid t ≡ some y
    → (x.account_id ≡ y.account_id) ⊎ (x.char_id ≡ y.char_id)
    → s ≡ t
single_active_session w s t x y r hx hy (inl e) =
    same_account-same_sid (Reachable-IsConsistent w r) s t x y hx hy e
single_active_session w s t x y r hx hy (inr e) =
    same_char-same_sid (Reachable-IsConsistent w r) s t x y hx hy e

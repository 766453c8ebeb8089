-- ===== src/Session/Bind/Evict.antt =====
-- `evict_old`: the tables without the old sessions of a char and an account.
use new_server.Prelude.{
  ℕ, ◌≡◌, ap, ◌∙◌, ◌≢◌, ◌⊎◌, inl, inr, Option, none, some, arith, ◌==◌, Bool-cases, Option-cases,
  nat_eq,
}
use new_server.Session.Key.{unpack_session_sid}
use new_server.Session.Types.{WorldAuthedSession, no_session}
use new_server.Session.Tables.{WorldSessions, erase_authed_sid, find_by_key, or_no_session}
use new_server.Session.Tables.Consistent.{Owns, IsConsistent, find_by_key-at}
use new_server.Session.Tables.Erase.{erase_authed_sid-Erased, erase_authed_sid-IsConsistent}
use new_server.Session.Bind.{evict_old}

abbrev pub old_char_of : WorldSessions → ℕ → WorldAuthedSession
old_char_of w c = or_no_session (find_by_key w (w.authed_session_key_by_char_id c))

abbrev pub old_account_of : WorldSessions → ℕ → WorldAuthedSession
old_account_of w a = or_no_session (find_by_key w (w.authed_session_key_by_account_id a))

-- What the lookup of an old session returns: nothing, or the bound session with the id.
pub data Old (w : WorldSessions) (index : Option ℕ) (at : WorldAuthedSession → Type 0)
    : Type 0 where
  absent : index ≡ none → or_no_session (find_by_key w index) ≡ no_session → Old w index at
  found :
      (x : WorldAuthedSession)
      → or_no_session (find_by_key w index) ≡ x
      → w.authed_sessions_by_sid x.sid ≡ some x
      → Owns w x.sid x
      → at x
      → Old w index at

pub old_char-cases :
    (w : WorldSessions) (c : ℕ)
    → IsConsistent w
    → Old w (w.authed_session_key_by_char_id c) (λ x. x.char_id ≡ c)
unfolding find_by_key
old_char-cases w c v = elim (Option-cases (w.authed_session_key_by_char_id c)) [
  | inl e ↦ absent e (rw e)
  | inr (k, e) ↦
      let named = v.char_names c k e in
      let at = find_by_key-at w k named.0 named.1 in
      let o = v.owns (unpack_session_sid k) named.0 at.0 in
      let under : w.authed_sessions_by_sid named.0.sid ≡ some named.0 =
        ap w.authed_sessions_by_sid o.at_sid ∙ at.0 in
      found named.0 (rw e (ap or_no_session named.1)) under (v.owns named.0.sid named.0 under)
        named.2
]

pub old_account-cases :
    (w : WorldSessions) (a : ℕ)
    → IsConsistent w
    → Old w (w.authed_session_key_by_account_id a) (λ x. x.account_id ≡ a)
unfolding find_by_key
old_account-cases w a v = elim (Option-cases (w.authed_session_key_by_account_id a)) [
  | inl e ↦ absent e (rw e)
  | inr (k, e) ↦
      let named = v.account_names a k e in
      let at = find_by_key-at w k named.0 named.1 in
      let o = v.owns (unpack_session_sid k) named.0 at.0 in
      let under : w.authed_sessions_by_sid named.0.sid ≡ some named.0 =
        ap w.authed_sessions_by_sid o.at_sid ∙ at.0 in
      found named.0 (rw e (ap or_no_session named.1)) under (v.owns named.0.sid named.0 under)
        named.2
]

abbrev pub evicted : WorldSessions → ℕ → ℕ → WorldSessions
evicted w c a = evict_old w (old_char_of w c) (old_account_of w a)

-- The tables after the eviction for a char `c` and an account `a`.
pub record Evicted (w w' : WorldSessions) (c a : ℕ) : Type 0 where
  pub consistent : IsConsistent w'
  pub char_free : w'.authed_session_key_by_char_id c ≡ none
  pub account_free : w'.authed_session_key_by_account_id a ≡ none
  -- only sessions of the char or of the account went
  pub kept :
      (s : ℕ) (y : WorldAuthedSession)
      → w.authed_sessions_by_sid s ≡ some y
      → y.char_id ≢ c
      → y.account_id ≢ a
      → w'.authed_sessions_by_sid s ≡ some y
  pub only :
      (s : ℕ) (y : WorldAuthedSession)
      → w'.authed_sessions_by_sid s ≡ some y
      → w.authed_sessions_by_sid s ≡ some y
  pub old : (s : ℕ) → w.authed_sessions_by_sid s ≡ none → w'.authed_sessions_by_sid s ≡ none

none-Evicted :
    (w : WorldSessions) (c a : ℕ)
    → IsConsistent w
    → w.authed_session_key_by_char_id c ≡ none
    → w.authed_session_key_by_account_id a ≡ none
    → Evicted w w c a
none-Evicted w c a v hc ha = record {
  consistent = v;
  char_free = hc;
  account_free = ha;
  kept = λ s y h _ _. h;
  only = λ s y h. h;
  old = λ s h. h;
}

-- One erasure, of the only session that has the char or the account.
one-Evicted :
    (w : WorldSessions) (c a : ℕ) (x : WorldAuthedSession)
    → IsConsistent w
    → w.authed_sessions_by_sid x.sid ≡ some x
    → (x.char_id ≡ c) ⊎ (w.authed_session_key_by_char_id c ≡ none)
    → (x.account_id ≡ a) ⊎ (w.authed_session_key_by_account_id a ≡ none)
    → (x.char_id ≡ c) ⊎ (x.account_id ≡ a)
    → Evicted w (erase_authed_sid w x.sid) c a
one-Evicted w c a x v hx hc ha why =
    let er = erase_authed_sid-Erased w x.sid x (v.owns x.sid x hx) hx in
    record {
      consistent = erase_authed_sid-IsConsistent w x.sid v;
      char_free = ground (arith, er.chars c);
      account_free = ground (arith, er.accounts a);
      kept = λ s y h nc na. ground (arith, er.sids s);
      only = λ s y h. ground (arith, er.sids s);
      old = λ s h. ground (arith, er.sids s);
    }

-- Two erasures: the char's session `x` and the account's session `y`.
two-Evicted :
    (w : WorldSessions) (c a : ℕ) (x y : WorldAuthedSession)
    → IsConsistent w
    → w.authed_sessions_by_sid x.sid ≡ some x
    → x.char_id ≡ c
    → w.authed_sessions_by_sid y.sid ≡ some y
    → y.account_id ≡ a
    → y.sid ≢ x.sid
    → Evicted w (erase_authed_sid (erase_authed_sid w x.sid) y.sid) c a
two-Evicted w c a x y v hx ex hy ey apart =
    let er = erase_authed_sid-Erased w x.sid x (v.owns x.sid x hx) hx in
    let v' = erase_authed_sid-IsConsistent w x.sid v in
    let w' = erase_authed_sid w x.sid in
    let hy' : w'.authed_sessions_by_sid y.sid ≡ some y = ground (arith, er.sids y.sid) in
    let er' = erase_authed_sid-Erased w' y.sid y (v'.owns y.sid y hy') hy' in
    record {
      consistent = erase_authed_sid-IsConsistent w' y.sid v';
      char_free = ground (arith, er.chars c, er'.chars c);
      account_free = ground (arith, er'.accounts a);
      kept = λ s z h nc na. ground (arith, er.sids s, er'.sids s);
      only = λ s y h. ground (arith, er.sids s, er'.sids s);
      old = λ s h. ground (arith, er.sids s, er'.sids s);
    }

-- The evictions of a bind, over the four cases of the two lookups.
pub evicted-Evicted : (w : WorldSessions) (c a : ℕ) → IsConsistent w → Evicted w (evicted w c a) c a
unfolding evict_old
evicted-Evicted w c a v = elim (old_char-cases w c v) [
  | absent hc ec ↦ elim (old_account-cases w a v) [
    | absent ha ea ↦ rw (ec, ea) (none-Evicted w c a v hc ha)
    | found y ea hy oy ey ↦
        rw (ec, ea)
          (ground (arith, oy.key.sid_pos, one-Evicted w c a y v hy (inr hc) (inl ey) (inr ey)))
  ]
  | found x ec hx ox ex ↦ elim (old_account-cases w a v) [
    | absent ha ea ↦
        rw (ec, ea)
          (ground (arith, ox.key.sid_pos, one-Evicted w c a x v hx (inl ex) (inr ha) (inl ex)))
    | found y ea hy oy ey ↦ elim (Bool-cases (y.sid == x.sid)) [
      | inl same ↦
          let one : x ≡ y = ground arith in
          let ex' : x.account_id ≡ a = rw one ey in
          rw (ec, ea)
            (ground (arith, ox.key.sid_pos, one-Evicted w c a x v hx (inl ex) (inl ex') (inl ex)))
      | inr apart ↦
          let far : y.sid ≢ x.sid = ground arith in
          rw (ec, ea)
            (ground
              (arith, ox.key.sid_pos, oy.key.sid_pos, two-Evicted w c a x y v hx ex hy ey far))
    ]
  ]
]

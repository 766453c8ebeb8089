-- ===== src/Session/History/Token.antt =====
-- A session that is given a reconnect token.
use new_server.Prelude.{
  ℕ, ◌≡◌, refl, sym, ap, ◌∙◌, inl, inr, some, List, Map, put, nat_beq_iff, ◌==◌, Bool-cases,
  Option-cases, nat_eq,
}
use new_server.Session.Key.{unpack_session_sid, is_valid_session_key}
use new_server.Session.Tables.Consistent.{find_by_key_of, find_by_key-at, Owns, IsConsistent}
use new_server.Session.Types.{WorldAuthedSession}
use new_server.Session.Tables.{find_by_key, WorldSessions}
use new_server.Session.Reconnect.{get_or_create_reconnect_token_for_session}

some_same : (x y : WorldAuthedSession) → some x ≡ some y → x ≡ y
some_same x y h = cc

module _ (w : WorldSessions) (sid : ℕ) (session : WorldAuthedSession) (token : List ℕ)
    (names : Map (List ℕ) ℕ) (v : IsConsistent w)
    (at : w.authed_sessions_by_sid sid ≡ some session) where
  abbrev named : WorldAuthedSession
  named = record session { reconnect_token = token }

  abbrev after_token : WorldSessions
  after_token = record w {
    authed_sessions_by_sid = put w.authed_sessions_by_sid sid named;
    reconnect_session_key_by_token = names;
  }

  named-Owns : Owns after_token sid named
  named-Owns =
      let o = v.owns sid session at in
      record {
        at_sid = o.at_sid;
        key = o.key;
        has_char = o.has_char;
        has_account = o.has_account;
        char_index = o.char_index;
        account_index = o.account_index;
      }

  token-owns :
      (s : ℕ) (x : WorldAuthedSession)
      → after_token.authed_sessions_by_sid s ≡ some x
      → Owns after_token s x
  token-owns s x h = elim (Bool-cases (sid == s)) [
    | inl here ↦
        let same : named ≡ x = some_same named x (rw (here, put) at h) in
        let there : sid ≡ s = (nat_beq_iff sid s).0 here in rw (← same, ← there) named-Owns
    | inr far ↦
        let o = v.owns s x (rw (far, put) at h) in
        record {
          at_sid = o.at_sid;
          key = o.key;
          has_char = o.has_char;
          has_account = o.has_account;
          char_index = o.char_index;
          account_index = o.account_index;
        }
  ]

  -- A key names the session that it named before, but for the token.
  token-named :
      (k : ℕ) (x : WorldAuthedSession)
      → find_by_key w (some k) ≡ some x
      → (y : WorldAuthedSession) × (find_by_key after_token (some k) ≡ some y)
        × (y.char_id ≡ x.char_id)
        × (y.account_id ≡ x.account_id)
  token-named k x h =
      let (there, serial) = find_by_key-at w k x h in
      elim (Bool-cases (sid == unpack_session_sid k)) [
        | inl here ↦
            let is_sid : sid ≡ unpack_session_sid k = (nat_beq_iff _ _).0 here in
            let same : session ≡ x =
              some_same session x (sym at ∙ ap w.authed_sessions_by_sid is_sid ∙ there) in
            (
              named,
              find_by_key_of after_token k named (rw (here, put) refl)
                  (ap (λ y. y.serial) same ∙ serial),
              ap (λ y. y.char_id) same,
              ap (λ y. y.account_id) same,
            )
        | inr far ↦ (x, find_by_key_of after_token k x (rw (far, put) there) serial, refl, refl)
      ]

  token-IsConsistent : IsConsistent after_token
  token-IsConsistent = record {
    owns = token-owns;
    char_names = λ c k h.
        let (x, found, of_char) = v.char_names c k h in
        let (y, found', same, _) = token-named k x found in (y, found', same ∙ of_char);
    account_names = λ a k h.
        let (x, found, of_account) = v.account_names a k h in
        let (y, found', _, same) = token-named k x found in (y, found', same ∙ of_account);
  }

pub get_or_create-IsConsistent :
    (w : WorldSessions) (sid serial : ℕ) (fresh_token : List ℕ)
    → IsConsistent w
    → IsConsistent (get_or_create_reconnect_token_for_session w sid serial fresh_token).0
unfolding get_or_create_reconnect_token_for_session
get_or_create-IsConsistent w sid serial fresh_token v =
    elim (Bool-cases (is_valid_session_key sid serial)) [
      | inl valid ↦ elim (Option-cases (w.authed_sessions_by_sid sid)) [
        | inl e ↦ rw (valid, e, get_or_create_reconnect_token_for_session) v
        | inr (session, e) ↦ elim (Bool-cases (session.serial == serial)) [
          | inl same ↦
              rw (valid, e, get_or_create_reconnect_token_for_session)
                (rw same (token-IsConsistent w sid session _ _ v e))
          | inr other ↦ rw (valid, e, get_or_create_reconnect_token_for_session) (rw other v)
        ]
      ]
      | inr bad ↦ rw bad v
    ]

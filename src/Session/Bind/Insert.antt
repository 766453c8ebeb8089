-- ===== src/Session/Bind/Insert.antt =====
-- `insert_session`: the writes of a bind on tables where the sid, the char and the account are free.
use new_server.Prelude.{ℕ, ◌<◌, ◌≡◌, sym, inl, inr, none, some, arith, ◌==◌, Bool-cases, nat_eq}
use new_server.Session.Key.{IsKey, pack_session_key, unpack-pack}
use new_server.Session.Types.{WorldAuthedSession}
use new_server.Session.Tables.{WorldSessions, find_by_key}
use new_server.Session.Tables.Consistent.{Owns, IsConsistent, find_by_key-at, find_by_key_of}
use new_server.Session.Bind.{insert_session}

-- Nothing is bound under the sid, the char or the account of `x`.
pub record IsFree (w : WorldSessions) (x : WorldAuthedSession) : Type 0 where
  pub sid_free : w.authed_sessions_by_sid x.sid ≡ none
  pub char_free : w.authed_session_key_by_char_id x.char_id ≡ none
  pub account_free : w.authed_session_key_by_account_id x.account_id ≡ none

module _ {w : WorldSessions} {x : WorldAuthedSession} (v : IsConsistent w) (free : IsFree w x)
    (key : IsKey x.sid x.serial) (has_char : 0 < x.char_id) (has_account : 0 < x.account_id) where
  insert-Owns :
      (s : ℕ) (y : WorldAuthedSession)
      → (insert_session w x).authed_sessions_by_sid s ≡ some y
      → Owns (insert_session w x) s y
  unfolding insert_session
  insert-Owns s y h = elim (Bool-cases (x.sid == s)) [
    | inl here ↦
        let same : x ≡ y = ground arith in
        rw (← same) (record {
          at_sid = ground arith;
          key = key;
          has_char = has_char;
          has_account = has_account;
          char_index = ground arith;
          account_index = ground arith;
        })
    | inr apart ↦
        let old : w.authed_sessions_by_sid s ≡ some y = ground arith in
        let o = v.owns s y old in
        record {
          at_sid = o.at_sid;
          key = o.key;
          has_char = o.has_char;
          has_account = o.has_account;
          char_index = ground (arith, o.char_index, free.char_free);
          account_index = ground (arith, o.account_index, free.account_free);
        }
  ]

  -- A key that found a session finds it still: the new sid was free.
  find-insert :
      (k : ℕ) (y : WorldAuthedSession)
      → find_by_key w (some k) ≡ some y
      → find_by_key (insert_session w x) (some k) ≡ some y
  unfolding insert_session
  find-insert k y f =
      let at = find_by_key-at w k y f in
      find_by_key_of (insert_session w x) k y (ground (arith, at, free.sid_free)) at.1

  find-insert_self :
      find_by_key (insert_session w x) (some (pack_session_key x.sid x.serial)) ≡ some x
  unfolding insert_session
  find-insert_self =
      let halves = unpack-pack x.sid x.serial key in
      find_by_key_of (insert_session w x) (pack_session_key x.sid x.serial) x
        (ground (arith, halves)) (sym halves.1)

  insert-char_names :
      (c k : ℕ)
      → (insert_session w x).authed_session_key_by_char_id c ≡ some k
      → (y : WorldAuthedSession) × (find_by_key (insert_session w x) (some k) ≡ some y)
        × (y.char_id ≡ c)
  unfolding insert_session
  insert-char_names c k h = elim (Bool-cases (x.char_id == c)) [
    | inl here ↦
        let e : pack_session_key x.sid x.serial ≡ k = ground arith in
        (x, rw (← e) find-insert_self, ground arith)
    | inr apart ↦
        let old = v.char_names c k (ground arith) in (old.0, find-insert k old.0 old.1, old.2)
  ]

  insert-account_names :
      (c k : ℕ)
      → (insert_session w x).authed_session_key_by_account_id c ≡ some k
      → (y : WorldAuthedSession) × (find_by_key (insert_session w x) (some k) ≡ some y)
        × (y.account_id ≡ c)
  unfolding insert_session
  insert-account_names c k h = elim (Bool-cases (x.account_id == c)) [
    | inl here ↦
        let e : pack_session_key x.sid x.serial ≡ k = ground arith in
        (x, rw (← e) find-insert_self, ground arith)
    | inr apart ↦
        let old = v.account_names c k (ground arith) in (old.0, find-insert k old.0 old.1, old.2)
  ]

  pub insert_session-IsConsistent : IsConsistent (insert_session w x)
  insert_session-IsConsistent = record {
    owns = insert-Owns;
    char_names = insert-char_names;
    account_names = insert-account_names;
  }

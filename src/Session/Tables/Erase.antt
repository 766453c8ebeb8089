-- ===== src/Session/Tables/Erase.antt =====
-- `erase_authed_sid` on consistent tables: exactly one session and its index entries go.
use new_server.Prelude.{
  ℕ, ◌<◌, ◌≡◌, refl, ◌≢◌, inl, inr, none, some, arith, Map, if◌then◌else◌, ◌==◌, Option-cases,
  nat_eq,
}
use new_server.Session.Key.{pack_session_key, unpack_session_sid, matches_packed_session_key}
use new_server.Session.Types.{WorldAuthedSession}
use new_server.Session.Tables.{
  WorldSessions, erase_index, erase_victim, erase_authed_sid, find_by_key,
}
use new_server.Session.Tables.Consistent.{
  Owns, IsConsistent, find_by_key-at, find_by_key_of, same_char-same_sid, same_account-same_sid,
}

-- An index that names the session loses the entry.
pub erase_index-hit :
    (m : Map ℕ ℕ) (id sid serial : ℕ)
    → 0 < id
    → m id ≡ some (pack_session_key sid serial)
    → (j : ℕ) → erase_index m id sid serial j ≡ (if id == j then none else m j)
unfolding erase_index matches_packed_session_key
erase_index-hit m id sid serial h e j = ground arith

-- The tables of `w'` are those of `w` less the session `x` under `s`.
pub record Erased (w w' : WorldSessions) (s : ℕ) (x : WorldAuthedSession) : Type 0 where
  pub sids :
      (j : ℕ) → w'.authed_sessions_by_sid j ≡ (if s == j then none else w.authed_sessions_by_sid j)
  pub chars :
      (j : ℕ)
      → w'.authed_session_key_by_char_id j
        ≡ (if x.char_id == j then none else w.authed_session_key_by_char_id j)
  pub accounts :
      (j : ℕ)
      → w'.authed_session_key_by_account_id j
        ≡ (if x.account_id == j then none else w.authed_session_key_by_account_id j)

pub erase_authed_sid-absent :
    (w : WorldSessions) (s : ℕ) → w.authed_sessions_by_sid s ≡ none → erase_authed_sid w s ≡ w
unfolding erase_authed_sid
erase_authed_sid-absent w s h = rw (h, erase_authed_sid)

pub erase_authed_sid-Erased :
    (w : WorldSessions) (s : ℕ) (x : WorldAuthedSession)
    → Owns w s x
    → w.authed_sessions_by_sid s ≡ some x
    → Erased w (erase_authed_sid w s) s x
unfolding erase_authed_sid erase_victim
erase_authed_sid-Erased w s x o h =
    rw (h, erase_authed_sid)
      (record {
        sids = λ j. refl;
        chars =
            erase_index-hit w.authed_session_key_by_char_id x.char_id x.sid x.serial o.has_char
              o.char_index;
        accounts =
            erase_index-hit w.authed_session_key_by_account_id x.account_id x.sid x.serial
              o.has_account o.account_index;
      })

module _ {w w' : WorldSessions} {s : ℕ} {x : WorldAuthedSession} (v : IsConsistent w)
    (hx : w.authed_sessions_by_sid s ≡ some x) (er : Erased w w' s x) where
  Erased-Owns :
      (t : ℕ) (y : WorldAuthedSession) → w'.authed_sessions_by_sid t ≡ some y → Owns w' t y
  Erased-Owns t y hy =
      let hy' : w.authed_sessions_by_sid t ≡ some y = ground (arith, er.sids t) in
      let apart : s ≢ t = λ e. ground (arith, er.sids t) in
      let o = v.owns t y hy' in
      record {
        at_sid = o.at_sid;
        key = o.key;
        has_char = o.has_char;
        has_account = o.has_account;
        char_index =
            ground (arith, er.chars y.char_id, o.char_index, same_char-same_sid v s t x y hx hy');
        account_index = ground (
          arith,
          er.accounts y.account_id,
          o.account_index,
          same_account-same_sid v s t x y hx hy',
        );
      }

  -- A key that finds another session than `x` finds it still.
  find-Erased :
      (k : ℕ) (y : WorldAuthedSession)
      → find_by_key w (some k) ≡ some y
      → s ≢ unpack_session_sid k
      → find_by_key w' (some k) ≡ some y
  find-Erased k y f apart =
      let at = find_by_key-at w k y f in
      find_by_key_of w' k y (ground (arith, er.sids (unpack_session_sid k), at)) at.1

  Erased-char_names :
      (c k : ℕ)
      → w'.authed_session_key_by_char_id c ≡ some k
      → (y : WorldAuthedSession) × (find_by_key w' (some k) ≡ some y) × (y.char_id ≡ c)
  Erased-char_names c k h =
      let old = v.char_names c k (ground (arith, er.chars c)) in
      let at = find_by_key-at w k old.0 old.1 in
      (old.0, find-Erased k old.0 old.1 (λ e. ground (arith, er.chars c, at, old.2)), old.2)

  Erased-account_names :
      (c k : ℕ)
      → w'.authed_session_key_by_account_id c ≡ some k
      → (y : WorldAuthedSession) × (find_by_key w' (some k) ≡ some y) × (y.account_id ≡ c)
  Erased-account_names c k h =
      let old = v.account_names c k (ground (arith, er.accounts c)) in
      let at = find_by_key-at w k old.0 old.1 in
      (old.0, find-Erased k old.0 old.1 (λ e. ground (arith, er.accounts c, at, old.2)), old.2)

  pub Erased-IsConsistent : IsConsistent w'
  Erased-IsConsistent = record {
    owns = Erased-Owns;
    char_names = Erased-char_names;
    account_names = Erased-account_names;
  }

-- Erasing whatever stands under a sid keeps the tables consistent.
pub erase_authed_sid-IsConsistent :
    (w : WorldSessions) (s : ℕ) → IsConsistent w → IsConsistent (erase_authed_sid w s)
erase_authed_sid-IsConsistent w s v = elim (Option-cases (w.authed_sessions_by_sid s)) [
  | inl e ↦ rw (erase_authed_sid-absent w s e) v
  | inr (x, e) ↦ Erased-IsConsistent v e (erase_authed_sid-Erased w s x (v.owns s x e) e)
]

pub sid-erase_authed_sid :
    (w : WorldSessions) (s j : ℕ)
    → (erase_authed_sid w s).authed_sessions_by_sid j
      ≡ (if s == j then none else w.authed_sessions_by_sid j)
unfolding erase_authed_sid erase_victim
sid-erase_authed_sid w s j = ground arith

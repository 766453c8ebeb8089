-- ===== src/Session/Tables/Consistent.antt =====
-- The reverse indexes agree with the table of sessions, and what erasing a session does to them.
use new_server.Prelude.{ℕ, ◌<◌, ◌≡◌, some, arith}
use new_server.Session.Key.{
  IsKey, pack_session_key, unpack_session_sid, unpack_session_serial, pack_injective,
}
use new_server.Session.Types.{WorldAuthedSession}
use new_server.Session.Tables.{WorldSessions, find_by_key}

-- A bound session stands under its own sid, and both indexes name it.
pub record Owns (w : WorldSessions) (s : ℕ) (x : WorldAuthedSession) : Type 0 where
  pub at_sid : x.sid ≡ s
  pub key : IsKey x.sid x.serial
  pub has_char : 0 < x.char_id
  pub has_account : 0 < x.account_id
  pub char_index :
      w.authed_session_key_by_char_id x.char_id ≡ some (pack_session_key x.sid x.serial)
  pub account_index :
      w.authed_session_key_by_account_id x.account_id ≡ some (pack_session_key x.sid x.serial)

pub record IsConsistent (w : WorldSessions) : Type 0 where
  pub owns : (s : ℕ) (x : WorldAuthedSession) → w.authed_sessions_by_sid s ≡ some x → Owns w s x
  pub char_names :
      (c k : ℕ)
      → w.authed_session_key_by_char_id c ≡ some k
      → (x : WorldAuthedSession) × (find_by_key w (some k) ≡ some x) × (x.char_id ≡ c)
  pub account_names :
      (a k : ℕ)
      → w.authed_session_key_by_account_id a ≡ some k
      → (x : WorldAuthedSession) × (find_by_key w (some k) ≡ some x) × (x.account_id ≡ a)

-- What `find_by_key` returns stands in the table, under the key's halves.
pub find_by_key-at :
    (w : WorldSessions) (k : ℕ) (x : WorldAuthedSession)
    → find_by_key w (some k) ≡ some x
    → (w.authed_sessions_by_sid (unpack_session_sid k) ≡ some x)
      × (x.serial ≡ unpack_session_serial k)
unfolding find_by_key
find_by_key-at w k x h = ground arith

pub find_by_key_of :
    (w : WorldSessions) (k : ℕ) (x : WorldAuthedSession)
    → w.authed_sessions_by_sid (unpack_session_sid k) ≡ some x
    → x.serial ≡ unpack_session_serial k
    → find_by_key w (some k) ≡ some x
unfolding find_by_key
find_by_key_of w k x h e = ground arith

module _ {w : WorldSessions} (v : IsConsistent w) where
  -- Two bound sessions with the same char, or with the same account, stand under the same sid.
  pub same_char-same_sid :
      (s t : ℕ) (x y : WorldAuthedSession)
      → w.authed_sessions_by_sid s ≡ some x
      → w.authed_sessions_by_sid t ≡ some y
      → x.char_id ≡ y.char_id
      → s ≡ t
  same_char-same_sid s t x y hx hy e =
      let ox = v.owns s x hx in
      let oy = v.owns t y hy in
      let same : pack_session_key x.sid x.serial ≡ pack_session_key y.sid y.serial =
        ground (arith, ox.char_index, oy.char_index) in
      omega (
        arith,
        pack_injective x.sid x.serial y.sid y.serial ox.key.serial_fits oy.key.serial_fits same,
        ox.at_sid,
        oy.at_sid,
      )

  pub same_account-same_sid :
      (s t : ℕ) (x y : WorldAuthedSession)
      → w.authed_sessions_by_sid s ≡ some x
      → w.authed_sessions_by_sid t ≡ some y
      → x.account_id ≡ y.account_id
      → s ≡ t
  same_account-same_sid s t x y hx hy e =
      let ox = v.owns s x hx in
      let oy = v.owns t y hy in
      let same : pack_session_key x.sid x.serial ≡ pack_session_key y.sid y.serial =
        ground (arith, ox.account_index, oy.account_index) in
      omega (
        arith,
        pack_injective x.sid x.serial y.sid y.serial ox.key.serial_fits oy.key.serial_fits same,
        ox.at_sid,
        oy.at_sid,
      )

-- ===== src/Session/Reconnect/Overwrite.antt =====
-- A takeover on a socket that has a session of its own.
use new_server.Prelude.{ℕ, ◌≡◌, refl, sym, ap, ◌∙◌, ◌≢◌, ◌⊎◌, inl, inr, some, List, arith}
use new_server.Session.Reconnect.Takeover.{success-moved}
use new_server.Session.Reconnect.{ReconnectWorldResultCode, reconnect_sessions, move_session}
use new_server.Session.Key.{pack_session_key}
use new_server.Session.Tables.Consistent.{same_char-same_sid, same_account-same_sid, IsConsistent}
use new_server.Session.Types.{WorldAuthedSession}
use new_server.Session.Tables.{WorldSessions}

-- What a reconnect of the char does on the socket of another session.
pub record Overwritten (w' : WorldSessions) (char_id sid : ℕ) (other : WorldAuthedSession)
    : Type 0 where
  pub taker : WorldAuthedSession
  pub taken : w'.authed_sessions_by_sid sid ≡ some taker
  pub of_char : taker.char_id ≡ char_id
  pub char_index :
      w'.authed_session_key_by_char_id other.char_id
      ≡ some (pack_session_key other.sid other.serial)
  pub account_index :
      w'.authed_session_key_by_account_id other.account_id
      ≡ some (pack_session_key other.sid other.serial)
  pub no_char :
      (s : ℕ) (x : WorldAuthedSession)
      → w'.authed_sessions_by_sid s ≡ some x
      → x.char_id ≢ other.char_id
  pub no_account :
      (s : ℕ) (x : WorldAuthedSession)
      → w'.authed_sessions_by_sid s ≡ some x
      → x.account_id ≢ other.account_id

some_same : (x y : WorldAuthedSession) → some x ≡ some y → x ≡ y
some_same x y h = cc

module _ (w : WorldSessions) (previous other : WorldAuthedSession) (sid serial : ℕ)
    (v : IsConsistent w) (at : w.authed_sessions_by_sid previous.sid ≡ some previous)
    (bound : w.authed_sessions_by_sid sid ≡ some other)
    (apart : other.char_id ≢ previous.char_id) where
  -- A session that is bound after the move is the one that moved, or an old one under another sid.
  after-move :
      (s : ℕ) (x : WorldAuthedSession)
      → (move_session w previous sid serial).authed_sessions_by_sid s ≡ some x
      → ((some (record previous { sid = sid; serial = serial })) ≡ some x)
        ⊎ ((sid ≢ s) × (w.authed_sessions_by_sid s ≡ some x))
  unfolding move_session
  after-move s x h = ground arith

  other_account : other.account_id ≢ previous.account_id
  other_account e =
      let here : sid ≡ previous.sid =
        same_account-same_sid v sid previous.sid other previous bound at e in
      let both : some other ≡ some previous = sym bound ∙ ap w.authed_sessions_by_sid here ∙ at in
      apart (ap (λ x. x.char_id) (some_same _ _ both))

  move_session-Overwritten :
      Overwritten (move_session w previous sid serial) previous.char_id sid other
  unfolding move_session
  move_session-Overwritten =
      let o = v.owns sid other bound in
      record {
        taker = record previous { sid = sid; serial = serial };
        taken = ground arith;
        of_char = refl;
        char_index = ground (arith, o.char_index, apart);
        account_index = ground (arith, o.account_index, other_account);
        no_char = λ s x h e. elim (after-move s x h) [
          | inl moved ↦ apart (sym e ∙ ap (λ y. y.char_id) (sym (some_same _ _ moved)))
          | inr (far, old) ↦ far (sym (same_char-same_sid v s sid x other old bound e))
        ];
        no_account = λ s x h e. elim (after-move s x h) [
          | inl moved ↦ other_account (sym e ∙ ap (λ y. y.account_id) (sym (some_same _ _ moved)))
          | inr (far, old) ↦ far (sym (same_account-same_sid v s sid x other old bound e))
        ];
      }

-- On consistent tables, where the socket has a session of another char: a reconnect that succeeds
-- puts the char's session under the socket's sid. The other char and its account then have no
-- session under any sid, and their indexes still name the session that was there.
pub reconnect-Overwritten :
    (w : WorldSessions) (account_id char_id : ℕ) (token : List ℕ) (sid serial : ℕ)
    (other : WorldAuthedSession)
    → IsConsistent w
    → w.authed_sessions_by_sid sid ≡ some other
    → other.char_id ≢ char_id
    → (reconnect_sessions w account_id char_id token sid serial).1.code
      ≡ ReconnectWorldResultCode.success
    → Overwritten (reconnect_sessions w account_id char_id token sid serial).0 char_id sid other
reconnect-Overwritten w account_id char_id token sid serial other v bound apart h =
    let (found, at, of_account, of_char, moved) =
      success-moved w account_id char_id token sid serial v h in
    rw moved (
      rw (← of_char)
        (move_session-Overwritten w found other sid serial v at bound (λ e. apart (e ∙ of_char))))

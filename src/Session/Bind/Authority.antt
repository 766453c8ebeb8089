-- ===== src/Session/Bind/Authority.antt =====
-- The tables after a bind: the new session, the sessions that shared its account or its char, and the
-- others.
use new_server.Prelude.{
  ℕ, ◌<◌, ◌≡◌, refl, sym, ap, ◌∙◌, ◌≢◌, ◌↔◌, inl, inr, true, false, ◌||◌, Option, none, some, List,
  arith, if◌then◌else◌, ◌==◌, Bool-cases, nat_eq,
}
use new_server.Session.Key.{IsKey}
use new_server.Session.Types.{WorldAuthedSession, BindAuthedWorldSessionResultKind}
use new_server.Session.Tables.{WorldSessions, erase_authed_sid}
use new_server.Session.Tables.Consistent.{IsConsistent, same_char-same_sid, same_account-same_sid}
use new_server.Session.Tables.Erase.{erase_authed_sid-IsConsistent, sid-erase_authed_sid}
use new_server.Session.Bind.{
  same_session, bound_token, insert_session, replace_sessions, asked_session,
  bind_authenticated_world_session,
}
use new_server.Session.Bind.Insert.{IsFree, insert_session-IsConsistent}
use new_server.Session.Bind.Evict.{old_char_of, evicted, evicted-Evicted}

-- The session that a bind stores where it replaces.
abbrev stored : WorldSessions → WorldAuthedSession → List ℕ → WorldAuthedSession
stored w asked fresh = record asked {
  reconnect_token = bound_token (old_char_of w asked.char_id) fresh;
}

abbrev cleared : WorldSessions → WorldAuthedSession → WorldSessions
cleared w asked = evicted w asked.char_id asked.account_id

replace_sessions-eq :
    (w : WorldSessions) (asked : WorldAuthedSession) (fresh : List ℕ)
    → (replace_sessions w asked fresh).0 ≡ insert_session (cleared w asked) (stored w asked fresh)
unfolding replace_sessions
replace_sessions-eq w asked fresh = refl

cleared-IsFree :
    (w : WorldSessions) (asked : WorldAuthedSession) (fresh : List ℕ)
    → IsConsistent w
    → w.authed_sessions_by_sid asked.sid ≡ none
    → IsFree (cleared w asked) (stored w asked fresh)
cleared-IsFree w asked fresh v free =
    let ev = evicted-Evicted w asked.char_id asked.account_id v in
    record {
      sid_free = ev.old asked.sid free;
      char_free = ev.char_free;
      account_free = ev.account_free;
    }

-- The outcome of a bind of `asked` on the tables `w`: how `w'` differs.
pub record Bound (w w' : WorldSessions) (asked : WorldAuthedSession) : Type 0 where
  pub consistent : IsConsistent w'
  pub session : WorldAuthedSession
  pub present : w'.authed_sessions_by_sid asked.sid ≡ some session
  pub of_account : session.account_id ≡ asked.account_id
  pub of_char : session.char_id ≡ asked.char_id
  pub of_serial : session.serial ≡ asked.serial
  -- under every other sid exactly the sessions of other accounts and chars are left
  pub others :
      (s : ℕ) (y : WorldAuthedSession)
      → asked.sid ≢ s
      → (w'.authed_sessions_by_sid s ≡ some y) ↔ (
          (w.authed_sessions_by_sid s ≡ some y)
          × (y.char_id ≢ asked.char_id)
          × (y.account_id ≢ asked.account_id))

-- Nothing under another sid shares the char or the account of a session that is bound.
apart_from :
    {w : WorldSessions} (v : IsConsistent w) (x : WorldAuthedSession) (s : ℕ)
    (y : WorldAuthedSession)
    → (t : ℕ) → w.authed_sessions_by_sid t ≡ some x
    → t ≢ s
    → w.authed_sessions_by_sid s ≡ some y
    → (y.char_id ≢ x.char_id) × (y.account_id ≢ x.account_id)
apart_from v x s y t hx far hy = (
  λ e. far (same_char-same_sid v t s x y hx hy (sym e)),
  λ e. far (same_account-same_sid v t s x y hx hy (sym e)),
)

same_session-Bound :
    (w : WorldSessions) (asked x : WorldAuthedSession)
    → IsConsistent w
    → w.authed_sessions_by_sid asked.sid ≡ some x
    → same_session (some x) asked.account_id asked.char_id asked.serial ≡ true
    → Bound w w asked
unfolding same_session
same_session-Bound w asked x v h same =
    let account : x.account_id ≡ asked.account_id = ground arith in
    let char : x.char_id ≡ asked.char_id = ground arith in
    record {
      consistent = v;
      session = x;
      present = h;
      of_account = account;
      of_char = char;
      of_serial = ground arith;
      others = λ s y far. (
        λ hy.
            let far' = apart_from v x s y asked.sid h far hy in
            (hy, λ e. far'.0 (e ∙ sym char), λ e. far'.1 (e ∙ sym account)),
        λ t. t.0,
      );
    }

module _ (w : WorldSessions) (asked : WorldAuthedSession) (fresh : List ℕ) (v : IsConsistent w)
    (key : IsKey asked.sid asked.serial) (has_char : 0 < asked.char_id)
    (has_account : 0 < asked.account_id) where
  abbrev w1 : WorldSessions
  w1 = erase_authed_sid w asked.sid

  abbrev done : WorldSessions
  done = insert_session (cleared w1 asked) (stored w1 asked fresh)

  w1-IsConsistent : IsConsistent w1
  w1-IsConsistent = erase_authed_sid-IsConsistent w asked.sid v

  done-IsConsistent : IsConsistent done
  done-IsConsistent =
      insert_session-IsConsistent
        (evicted-Evicted w1 asked.char_id asked.account_id w1-IsConsistent).consistent
        (cleared-IsFree w1 asked fresh w1-IsConsistent
          (ground (arith, sid-erase_authed_sid w asked.sid asked.sid)))
        key has_char has_account

  sid-done :
      (s : ℕ)
      → done.authed_sessions_by_sid s ≡ (
          if asked.sid == s
          then some (stored w1 asked fresh)
          else (cleared w1 asked).authed_sessions_by_sid s)
  unfolding insert_session
  sid-done s = refl

  done-kept :
      (s : ℕ) (y : WorldAuthedSession)
      → asked.sid ≢ s
      → w.authed_sessions_by_sid s ≡ some y
      → y.char_id ≢ asked.char_id
      → y.account_id ≢ asked.account_id
      → done.authed_sessions_by_sid s ≡ some y
  done-kept s y far h nc na =
      let ev = evicted-Evicted w1 asked.char_id asked.account_id w1-IsConsistent in
      let h1 : w1.authed_sessions_by_sid s ≡ some y =
        ground (arith, sid-erase_authed_sid w asked.sid s) in
      ground (arith, sid-done s, ev.kept s y h1 nc na)

  done-only :
      (s : ℕ) (y : WorldAuthedSession)
      → asked.sid ≢ s
      → done.authed_sessions_by_sid s ≡ some y
      → w.authed_sessions_by_sid s ≡ some y
  done-only s y far h =
      let ev = evicted-Evicted w1 asked.char_id asked.account_id w1-IsConsistent in
      let h1 : w1.authed_sessions_by_sid s ≡ some y = ev.only s y (ground (arith, sid-done s)) in
      ground (arith, sid-erase_authed_sid w asked.sid s)

  pub replace-Bound : Bound w (replace_sessions w1 asked fresh).0 asked
  replace-Bound = rw (replace_sessions-eq w1 asked fresh) (record {
    consistent = done-IsConsistent;
    session = stored w1 asked fresh;
    present = ground (arith, sid-done asked.sid);
    of_account = refl;
    of_char = refl;
    of_serial = refl;
    others = λ s y far. (
      λ hy.
          let far' =
            apart_from done-IsConsistent (stored w1 asked fresh) s y asked.sid
              (ground (arith, sid-done asked.sid)) far hy in
          (done-only s y far hy, far'.0, far'.1),
      λ t. done-kept s y far t.0 t.1 t.2,
    );
  })

pub valid_ids :
    (account_id char_id sid serial : ℕ)
    → IsKey sid serial
    → 0 < char_id
    → 0 < account_id
    → (account_id == 0 || char_id == 0 || sid == 0 || serial == 0) ≡ false
valid_ids account_id char_id sid serial key has_char has_account = ground arith

-- A session that passes the test stands in the table.
same_session-some :
    (o : Option WorldAuthedSession) (account_id char_id serial : ℕ)
    → same_session o account_id char_id serial ≡ true
    → (x : WorldAuthedSession) × (o ≡ some x)
unfolding same_session
same_session-some none account_id char_id serial h = cc
same_session-some (some x) account_id char_id serial h = (x, refl)

-- With ids that are not zero, a sid and serial of 32 bits and consistent tables: the tables stay
-- consistent, the asked session is bound under its sid, and under every other sid stand exactly the
-- sessions that stood there and share neither its char nor its account.
pub bind-Bound :
    (w : WorldSessions) (account_id char_id sid serial : ℕ) (fresh_token : List ℕ)
    → IsConsistent w
    → IsKey sid serial
    → 0 < char_id
    → 0 < account_id
    → Bound w
        (bind_authenticated_world_session w account_id char_id sid serial fresh_token).0
        (asked_session account_id char_id sid serial)
unfolding bind_authenticated_world_session
bind-Bound w account_id char_id sid serial fresh_token v key has_char has_account =
    let asked : WorldAuthedSession = asked_session account_id char_id sid serial in
    let valid = valid_ids account_id char_id sid serial key has_char has_account in
    let at = w.authed_sessions_by_sid sid in
    elim (Bool-cases (same_session at account_id char_id serial)) [
      | inl same ↦
          let (x, e) = same_session-some at account_id char_id serial same in
          rw (valid, same)
            (same_session-Bound w asked x v e
              (ap (λ o. same_session o account_id char_id serial) (sym e) ∙ same))
      | inr other ↦ rw (valid, other) (replace-Bound w asked fresh_token v key has_char has_account)
    ]

-- A bind that is refused for its input changes nothing and says so.
pub bind_invalid_input :
    (w : WorldSessions) (account_id char_id sid serial : ℕ) (fresh_token : List ℕ)
    → (account_id == 0 || char_id == 0 || sid == 0 || serial == 0) ≡ true
    → let r = bind_authenticated_world_session w account_id char_id sid serial fresh_token in
      (r.0 ≡ w) × (r.1.kind ≡ BindAuthedWorldSessionResultKind.invalid_input)
unfolding bind_authenticated_world_session
bind_invalid_input w account_id char_id sid serial fresh_token h = rw h (refl, refl)

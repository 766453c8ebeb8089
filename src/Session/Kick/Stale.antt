-- ===== src/Session/Kick/Stale.antt =====
-- The kicks that a bind issues, and the sessions that they name.
use new_server.Prelude.{
  ℕ, ◌<◌, ◌≡◌, refl, sym, ap, ◌∙◌, ◌≢◌, ◌⊎◌, inl, inr, Bool, true, false, ◌&&◌, ◌||◌, not, Option,
  none, some, List, [], ◌∷◌, arith, if◌then◌else◌, ◌==◌, Bool-cases, Option-cases, nat_eq,
}
use new_server.Session.Bind.Evict.{
  old_account-cases, old_account_of, old_char_of, old_char-cases, absent, found, Old,
}
use new_server.Session.Key.{IsKey}
use new_server.Session.Types.{
  no_session, WorldAuthedSession, DuplicateSessionCause, SessionKickStatCategory,
  BindAuthedWorldSessionResult,
}
use new_server.Session.Tables.{
  or_no_session, find_by_key, find_by_key, or_no_session, WorldSessions, erase_authed_sid,
}
use new_server.Session.Tables.Consistent.{IsConsistent}
use new_server.Session.Tables.Erase.{erase_authed_sid-IsConsistent, sid-erase_authed_sid}
use new_server.Session.Bind.{same_session, replace_sessions, bind_authenticated_world_session}
use new_server.Session.Bind.Authority.{bind-Bound}
use new_server.Session.Lifecycle.{WorldRuntime}
use new_server.Session.Kick.{
  bind_authenticated_world_session_for_login, DuplicateLoginLogContext,
  enqueue_duplicate_authed_session_close, opt_cons, enqueue_kicks,
}

-- Every kick of a list satisfies `P`.
pub data AllKicks (P : DuplicateLoginLogContext → Type 0)
    : List DuplicateLoginLogContext → Type 0 where
  none_left : AllKicks P []
  kick :
      (ctx : DuplicateLoginLogContext) (rest : List DuplicateLoginLogContext)
      → P ctx
      → AllKicks P rest
      → AllKicks P (ctx ∷ rest)

-- A kick of a session that stood in `w` and is gone in `w'`.
pub record EvictedKick (w w' : WorldSessions) (account_id char_id : ℕ)
    (ctx : DuplicateLoginLogContext) : Type 0 where
  pub old : WorldAuthedSession
  pub was : w.authed_sessions_by_sid ctx.sid ≡ some old
  pub same_serial : old.serial ≡ ctx.serial
  pub shares : (old.char_id ≡ char_id) ⊎ (old.account_id ≡ account_id)
  pub gone : w'.authed_sessions_by_sid ctx.sid ≡ none

opt_cons-AllKicks :
    {P : DuplicateLoginLogContext → Type 0} (o : Option DuplicateLoginLogContext)
    (rest : List DuplicateLoginLogContext)
    → ((ctx : DuplicateLoginLogContext) → o ≡ some ctx → P ctx)
    → AllKicks P rest
    → AllKicks P (opt_cons o rest)
opt_cons-AllKicks none rest h all = all
opt_cons-AllKicks (some ctx) rest h all = kick ctx rest (h ctx refl) all

enqueue-key :
    (rt : WorldRuntime) (victim current : WorldAuthedSession) (reason : ℕ)
    (cause : DuplicateSessionCause) (category : SessionKickStatCategory)
    (ctx : DuplicateLoginLogContext)
    → (enqueue_duplicate_authed_session_close rt victim current reason cause category).1 ≡ some ctx
    → (ctx.sid ≡ victim.sid) × (ctx.serial ≡ victim.serial)
unfolding enqueue_duplicate_authed_session_close
enqueue-key rt victim current reason cause category ctx h = ground arith

guarded :
    (b : Bool) (x : WorldRuntime × Option DuplicateLoginLogContext) (rt : WorldRuntime)
    (ctx : DuplicateLoginLogContext)
    → (if b then x else (rt, none)).1 ≡ some ctx
    → (b ≡ true) × (x.1 ≡ some ctx)
guarded true x rt ctx h = (refl, h)
guarded false x rt ctx h = cc

and_left : (a b : Bool) → (a && b) ≡ true → a ≡ true
and_left true b h = refl
and_left false b h = cc

-- What the two kicks of a bind are for.
enqueue_kicks-AllKicks :
    {P : DuplicateLoginLogContext → Type 0} (rt : WorldRuntime) (r : BindAuthedWorldSessionResult)
    (reason : ℕ)
    → (not (r.old_char_session.sid == 0) ≡ true
        → (ctx : DuplicateLoginLogContext) → ctx.sid ≡ r.old_char_session.sid
        → ctx.serial ≡ r.old_char_session.serial
        → P ctx)
    → (not (r.old_account_session.sid == 0) ≡ true
        → (ctx : DuplicateLoginLogContext) → ctx.sid ≡ r.old_account_session.sid
        → ctx.serial ≡ r.old_account_session.serial
        → P ctx)
    → AllKicks P (enqueue_kicks rt r reason).1
unfolding enqueue_kicks
enqueue_kicks-AllKicks rt r reason of_char of_account =
    opt_cons-AllKicks _ _
      (λ ctx h.
        let g = guarded _ _ _ ctx h in
        let k = enqueue-key _ r.old_char_session r.current_session reason _ _ ctx g.1 in
        of_char g.0 ctx k.0 k.1)
      (opt_cons-AllKicks _ []
        (λ ctx h.
          let g = guarded _ _ _ ctx h in
          let k = enqueue-key _ r.old_account_session r.current_session reason _ _ ctx g.1 in
          of_account (and_left _ _ g.0) ctx k.0 k.1)
        none_left)

module _ (w : WorldSessions) (v : IsConsistent w) (account_id char_id sid serial : ℕ)
    (fresh : List ℕ) (key : IsKey sid serial) (has_char : 0 < char_id)
    (has_account : 0 < account_id) where
  abbrev w1 : WorldSessions
  w1 = erase_authed_sid w sid

  abbrev w' : WorldSessions
  w' = (bind_authenticated_world_session w account_id char_id sid serial fresh).0

  w1-only :
      (x : WorldAuthedSession) (s : ℕ)
      → w1.authed_sessions_by_sid s ≡ some x
      → (sid ≢ s) × (w.authed_sessions_by_sid s ≡ some x)
  w1-only x s h =
      (ground (arith, sid-erase_authed_sid w sid s), ground (arith, sid-erase_authed_sid w sid s))

  -- A session that the lookups of old sessions find is evicted.
  evicted-gone :
      (x : WorldAuthedSession)
      → w1.authed_sessions_by_sid x.sid ≡ some x
      → (x.char_id ≡ char_id) ⊎ (x.account_id ≡ account_id)
      → w'.authed_sessions_by_sid x.sid ≡ none
  evicted-gone x h shares = elim (Option-cases (w'.authed_sessions_by_sid x.sid)) [
    | inl e ↦ e
    | inr (y, e) ↦
        let at = w1-only x x.sid h in
        let b = bind-Bound w account_id char_id sid serial fresh v key has_char has_account in
        let left = (b.others x.sid y at.0).0 e in
        let same : y ≡ x = cc (left.0, at.1) in
        absurd (elim shares [
          | inl c ↦ left.1 (ap (λ z. z.char_id) same ∙ c)
          | inr a ↦ left.2 (ap (λ z. z.account_id) same ∙ a)
        ])
  ]

  kick-Evicted :
      (x : WorldAuthedSession)
      → w1.authed_sessions_by_sid x.sid ≡ some x
      → (x.char_id ≡ char_id) ⊎ (x.account_id ≡ account_id)
      → (ctx : DuplicateLoginLogContext) → ctx.sid ≡ x.sid
      → ctx.serial ≡ x.serial
      → EvictedKick w w' account_id char_id ctx
  kick-Evicted x h shares ctx es et = record {
    old = x;
    was = ap w.authed_sessions_by_sid es ∙ (w1-only x x.sid h).1;
    same_serial = sym et;
    shares = shares;
    gone = ap w'.authed_sessions_by_sid es ∙ evicted-gone x h shares;
  }

  w1-IsConsistent : IsConsistent w1
  w1-IsConsistent = erase_authed_sid-IsConsistent w sid v

  old-Evicted :
      {index : Option ℕ} {at : WorldAuthedSession → Type 0}
      → ((x : WorldAuthedSession) → at x → (x.char_id ≡ char_id) ⊎ (x.account_id ≡ account_id))
      → Old w1 index at
      → not ((or_no_session (find_by_key w1 index)).sid == 0) ≡ true
      → (ctx : DuplicateLoginLogContext) → ctx.sid ≡ (or_no_session (find_by_key w1 index)).sid
      → ctx.serial ≡ (or_no_session (find_by_key w1 index)).serial
      → EvictedKick w w' account_id char_id ctx
  old-Evicted shares (absent none_there e) pos ctx es et =
      let has : not (no_session.sid == 0) ≡ true = ap (λ z. not (z.sid == 0)) (sym e) ∙ pos in
      cc (has)
  old-Evicted shares (found x e hx ox ex) pos ctx es et =
      kick-Evicted x hx (shares x ex) ctx (es ∙ ap (λ z. z.sid) e) (et ∙ ap (λ z. z.serial) e)

  result-Evicted :
      {index : Option ℕ} {at : WorldAuthedSession → Type 0}
      → ((x : WorldAuthedSession) → at x → (x.char_id ≡ char_id) ⊎ (x.account_id ≡ account_id))
      → Old w1 index at
      → {o : WorldAuthedSession} → (o ≡ no_session) ⊎ (o ≡ or_no_session (find_by_key w1 index))
      → not (o.sid == 0) ≡ true
      → (ctx : DuplicateLoginLogContext) → ctx.sid ≡ o.sid
      → ctx.serial ≡ o.serial
      → EvictedKick w w' account_id char_id ctx
  result-Evicted shares old (inl e) pos ctx es et =
      let has : not (no_session.sid == 0) ≡ true = ap (λ z. not (z.sid == 0)) (sym e) ∙ pos in
      cc (has)
  result-Evicted shares old (inr e) pos ctx es et =
      old-Evicted shares old (ap (λ z. not (z.sid == 0)) (sym e) ∙ pos) ctx (es ∙ ap (λ z. z.sid) e)
        (et ∙ ap (λ z. z.serial) e)

enqueue-sessions :
    (rt : WorldRuntime) (victim current : WorldAuthedSession) (reason : ℕ)
    (cause : DuplicateSessionCause) (category : SessionKickStatCategory)
    → (enqueue_duplicate_authed_session_close rt victim current reason cause category).0.sessions
      ≡ rt.sessions
unfolding enqueue_duplicate_authed_session_close
enqueue-sessions rt victim current reason cause category = ground arith

guarded-sessions :
    (b : Bool) (x : WorldRuntime × Option DuplicateLoginLogContext) (rt : WorldRuntime)
    → x.0.sessions ≡ rt.sessions
    → (if b then x else (rt, none)).0.sessions ≡ rt.sessions
guarded-sessions true x rt h = h
guarded-sessions false x rt h = refl

enqueue_kicks-sessions :
    (rt : WorldRuntime) (r : BindAuthedWorldSessionResult) (reason : ℕ)
    → (enqueue_kicks rt r reason).0.sessions ≡ rt.sessions
unfolding enqueue_kicks
enqueue_kicks-sessions rt r reason =
    guarded-sessions _ _ _ (enqueue-sessions _ r.old_account_session r.current_session reason _ _)
    ∙ guarded-sessions _ _ rt (enqueue-sessions rt r.old_char_session r.current_session reason _ _)

-- The old sessions of a bind's result are none, or what the lookups find.
bind-old :
    (w : WorldSessions) (account_id char_id sid serial : ℕ) (fresh : List ℕ)
    → let r = (bind_authenticated_world_session w account_id char_id sid serial fresh).1 in
      ((r.old_char_session ≡ no_session)
        ⊎ (r.old_char_session ≡ old_char_of (erase_authed_sid w sid) char_id))
      × ((r.old_account_session ≡ no_session)
          ⊎ (r.old_account_session ≡ old_account_of (erase_authed_sid w sid) account_id))
unfolding bind_authenticated_world_session replace_sessions
bind-old w account_id char_id sid serial fresh =
    elim (Bool-cases (account_id == 0 || char_id == 0 || sid == 0 || serial == 0)) [
      | inl bad ↦ rw bad (inl refl, inl refl)
      | inr good ↦
          elim (Bool-cases
            (same_session (w.authed_sessions_by_sid sid) account_id char_id serial)) [
              | inl same ↦ rw (good, same) (inl refl, inl refl)
              | inr other ↦ rw (good, other) (inr refl, inr refl)
            ]
    ]

-- On consistent tables, with ids that are not zero and a sid and serial of 32 bits: each kick that a
-- bind issues names a sid under which nothing is bound any more, and under which, before the bind, a
-- session with the kick's serial and with the new char or the new account was bound.
pub kicks-AllEvicted :
    (rt : WorldRuntime) (account_id char_id sid serial reason : ℕ) (fresh : List ℕ)
    → IsConsistent rt.sessions
    → IsKey sid serial
    → 0 < char_id
    → 0 < account_id
    → let r =
        bind_authenticated_world_session_for_login rt account_id char_id sid serial reason fresh in
      AllKicks (EvictedKick rt.sessions r.0.sessions account_id char_id) r.2
unfolding bind_authenticated_world_session_for_login
kicks-AllEvicted rt account_id char_id sid serial reason fresh v key has_char has_account =
    let w = rt.sessions in
    let b = bind_authenticated_world_session w account_id char_id sid serial fresh in
    let old = bind-old w account_id char_id sid serial fresh in
    let w1 = erase_authed_sid w sid in
    let v1 = erase_authed_sid-IsConsistent w sid v in
    rw (enqueue_kicks-sessions (record rt { sessions = b.0 }) b.1 reason) (
      enqueue_kicks-AllKicks (record rt { sessions = b.0 }) b.1 reason
        (result-Evicted w v account_id char_id sid serial fresh key has_char has_account
          (λ x e. inl e) (old_char-cases w1 char_id v1) old.0)
        (result-Evicted w v account_id char_id sid serial fresh key has_char has_account
          (λ x e. inr e) (old_account-cases w1 account_id v1) old.1))

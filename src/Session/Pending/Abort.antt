-- ===== src/Session/Pending/Abort.antt =====
-- The pending requests after the abort of a session's enter-world flow.
use new_server.Prelude.{
  ℕ, ◌+◌, ◌≡◌, refl, sym, ap, ◌∙◌, ◌≢◌, ◌↔◌, inl, inr, Bool, true, false, ◌&&◌, Option, none, some,
  List, [], ◌∷◌, arith, List-cases, Map, erase_if, if◌then◌else◌, ◌==◌, Bool-cases, Option-cases,
  nat_eq,
}
use new_server.Session.Key.{is_valid_session_key, pack_session_key}
use new_server.Session.Types.{WorldEnterStage}
use new_server.Session.Tables.{WorldSessions}
use new_server.Session.Pending.{
  PendingFlows, is_of_session, PendingEnterWorldFinalize, PendingEnterWorldConsumeRequest,
  drop_finalizes, drop_orphan_assign, walk_finalizes, abort_stage, erase_pending_consume_by_session,
  erase_pending_finalize_by_session, erase_pending_snapshot_by_session,
  erase_pending_zone_player_enter_by_session, abort_enter_world_flow_by_session,
}

-- The tables that the walk over the finalizes leaves alone.
record SameRequests (p q : PendingFlows) : Type 0 where
  consume : q.pending_enter_world_consume ≡ p.pending_enter_world_consume
  snapshot :
      q.pending_character_enter_snapshot_requests ≡ p.pending_character_enter_snapshot_requests
  zone_enter : q.pending_zone_player_enter_requests ≡ p.pending_zone_player_enter_requests

drop_orphan_assign-Same : (p : PendingFlows) (r : ℕ) → SameRequests p (drop_orphan_assign p r)
unfolding drop_orphan_assign
drop_orphan_assign-Same p r = elim (Option-cases (p.pending_zone_assign_requests r)) [
  | inl e ↦
      rw (e, drop_orphan_assign) (record { consume = refl; snapshot = refl; zone_enter = refl })
  | inr (x, e) ↦
      rw (e, drop_orphan_assign) (record { consume = refl; snapshot = refl; zone_enter = refl })
]

SameRequests-trans : (p q r : PendingFlows) → SameRequests p q → SameRequests q r → SameRequests p r
SameRequests-trans p q r h k = record {
  consume = k.consume ∙ h.consume;
  snapshot = k.snapshot ∙ h.snapshot;
  zone_enter = k.zone_enter ∙ h.zone_enter;
}

walk-Same :
    (sid serial : ℕ) (l : List (ℕ × List PendingEnterWorldFinalize)) (p : PendingFlows)
    → SameRequests p (walk_finalizes sid serial l p).1
unfolding walk_finalizes
walk-Same sid serial [] p = record { consume = refl; snapshot = refl; zone_enter = refl }
walk-Same sid serial ((r, es) ∷ l) p = elim (List-cases (drop_finalizes sid serial es)) [
  | inl e ↦
      let q = drop_orphan_assign p r in
      rw (e, walk_finalizes)
        (SameRequests-trans p q (walk_finalizes sid serial l q).1 (drop_orphan_assign-Same p r)
          (walk-Same sid serial l q))
  | inr (x, xs, e) ↦ rw (e, walk_finalizes) (walk-Same sid serial l p)
]

-- How many finalizes of a session wait in a list, and in all of them.
unfoldable pub count_finalizes : ℕ → ℕ → List PendingEnterWorldFinalize → ℕ
count_finalizes s t [] = 0
count_finalizes s t (e ∷ es) =
    (if e.enter_pending.sid == s && e.enter_pending.serial == t then 1 else 0)
    + count_finalizes s t es

unfoldable pub count_waiting : ℕ → ℕ → List (ℕ × List PendingEnterWorldFinalize) → ℕ
count_waiting s t [] = 0
count_waiting s t ((r, es) ∷ l) = count_finalizes s t es + count_waiting s t l

drop-none :
    (sid serial : ℕ) (es : List PendingEnterWorldFinalize)
    → count_finalizes sid serial (drop_finalizes sid serial es) ≡ 0
unfolding drop_finalizes count_finalizes is_of_session
drop-none sid serial [] = refl
drop-none sid serial (e ∷ es) = ground (arith, drop-none sid serial es)

drop-others :
    (sid serial s t : ℕ) (es : List PendingEnterWorldFinalize)
    → ¬ ((s ≡ sid) × (t ≡ serial))
    → count_finalizes s t (drop_finalizes sid serial es) ≡ count_finalizes s t es
unfolding drop_finalizes count_finalizes is_of_session
drop-others sid serial s t [] other = refl
drop-others sid serial s t (e ∷ es) other = ground (arith, drop-others sid serial s t es other)

count_finalizes-nil : (s t : ℕ) → count_finalizes s t [] ≡ 0
unfolding count_finalizes
count_finalizes-nil s t = refl

walk-none :
    (sid serial : ℕ) (l : List (ℕ × List PendingEnterWorldFinalize)) (p : PendingFlows)
    → count_waiting sid serial (walk_finalizes sid serial l p).0 ≡ 0
unfolding walk_finalizes count_waiting
walk-none sid serial [] p = refl
walk-none sid serial ((r, es) ∷ l) p = elim (List-cases (drop_finalizes sid serial es)) [
  | inl e ↦ rw (e, walk_finalizes) (walk-none sid serial l (drop_orphan_assign p r))
  | inr (x, xs, e) ↦
      let head : count_finalizes sid serial (x ∷ xs) ≡ 0 =
        ap (count_finalizes sid serial) (sym e) ∙ drop-none sid serial es in
      rw (e, walk_finalizes) (ground (arith, head, walk-none sid serial l p))
]

walk-others :
    (sid serial s t : ℕ) (l : List (ℕ × List PendingEnterWorldFinalize)) (p : PendingFlows)
    → ¬ ((s ≡ sid) × (t ≡ serial))
    → count_waiting s t (walk_finalizes sid serial l p).0 ≡ count_waiting s t l
unfolding walk_finalizes count_waiting
walk-others sid serial s t [] p other = refl
walk-others sid serial s t ((r, es) ∷ l) p other =
    let kept = drop-others sid serial s t es other in
    elim (List-cases (drop_finalizes sid serial es)) [
      | inl e ↦
          let unheld : count_finalizes s t es ≡ 0 =
            sym kept ∙ ap (count_finalizes s t) e ∙ count_finalizes-nil s t in
          rw (e, walk_finalizes)
            (ground (arith, unheld, walk-others sid serial s t l (drop_orphan_assign p r) other))
      | inr (x, xs, e) ↦
          let head : count_finalizes s t (x ∷ xs) ≡ count_finalizes s t es =
            ap (count_finalizes s t) (sym e) ∙ kept in
          rw (e, walk_finalizes) (ground (arith, head, walk-others sid serial s t l p other))
    ]

-- What is left in a table of requests: those of other sessions.
abbrev pub PurgedOf {ℓ} :
    {V : Type ℓ} → (V → PendingEnterWorldConsumeRequest) → ℕ → ℕ → Map ℕ V → Map ℕ V → Type ℓ
PurgedOf {V = V} request sid serial m m' =
    (id : ℕ) (x : V)
    → (m' id ≡ some x)
      ↔ ((m id ≡ some x) × ¬ (((request x).sid ≡ sid) × ((request x).serial ≡ serial)))

of-key :
    (sid serial : ℕ) (y x : PendingEnterWorldConsumeRequest)
    → y ≡ x
    → is_of_session sid serial y ≡ true
    → (x.sid ≡ sid) × (x.serial ≡ serial)
unfolding is_of_session
of-key sid serial y x e hit = rw (← e) (ground arith)

not-key :
    (sid serial : ℕ) (y x : PendingEnterWorldConsumeRequest)
    → y ≡ x
    → is_of_session sid serial y ≡ false
    → ¬ ((x.sid ≡ sid) × (x.serial ≡ serial))
unfolding is_of_session
not-key sid serial y x e miss = rw (← e) (ground arith)

pick {ℓ} : {V : Type ℓ} → (V → Bool) → Option V → Option V
pick test none = none
pick test (some v) = if test v then none else some v

erase_if-pick {ℓ} :
    {V : Type ℓ} (test : V → Bool) (m : Map ℕ V) (j : ℕ) (o : Option V)
    → m j ≡ o
    → erase_if test m j ≡ pick test o
unfolding pick
erase_if-pick test m j none e = rw (e, erase_if) refl
erase_if-pick test m j (some v) e = rw (e, erase_if) refl

pick_iff {ℓ} :
    {V : Type ℓ} (request : V → PendingEnterWorldConsumeRequest) (sid serial : ℕ) (o : Option V)
    (x : V)
    → (pick (λ y. is_of_session sid serial (request y)) o ≡ some x)
      ↔ ((o ≡ some x) × ¬ (((request x).sid ≡ sid) × ((request x).serial ≡ serial)))
unfolding pick
pick_iff request sid serial none x = ((λ h. cc), λ t. cc)
pick_iff {V = V} request sid serial (some y) x =
    let same : some y ≡ some x → request y ≡ request x = λ h. cc in
    elim (Bool-cases (is_of_session sid serial (request y))) [
      | inl hit ↦
          rw hit (
            (λ h. cc),
            λ t. absurd (t.1 (of-key sid serial (request y) (request x) (same t.0) hit)),
          )
      | inr miss ↦
          rw miss
            ((λ h. (h, λ k. not-key sid serial (request y) (request x) (same h) miss k)), λ t. t.0)
    ]

erase_if-PurgedOf {ℓ} :
    {V : Type ℓ} (request : V → PendingEnterWorldConsumeRequest) (sid serial : ℕ) (m : Map ℕ V)
    → PurgedOf request sid serial m (erase_if (λ x. is_of_session sid serial (request x)) m)
erase_if-PurgedOf request sid serial m id x =
    let e = erase_if-pick (λ y. is_of_session sid serial (request y)) m id (m id) refl in
    let (to, from) = pick_iff request sid serial (m id) x in (λ h. to (sym e ∙ h), λ t. e ∙ from t)

-- The outcome of an abort.
pub record Aborted (w w' : WorldSessions) (p p' : PendingFlows) (sid serial : ℕ) : Type 0 where
  pub consume :
      PurgedOf (λ r. r) sid serial p.pending_enter_world_consume p'.pending_enter_world_consume
  pub snapshot :
      PurgedOf
        (λ r. r.enter_pending)
        sid
        serial
        p.pending_character_enter_snapshot_requests
        p'.pending_character_enter_snapshot_requests
  pub zone_enter :
      PurgedOf
        (λ r. r.enter_pending)
        sid
        serial
        p.pending_zone_player_enter_requests
        p'.pending_zone_player_enter_requests
  pub no_finalize : count_waiting sid serial p'.pending_enter_world_finalize_by_assign_request ≡ 0
  pub other_finalizes :
      (s t : ℕ)
      → ¬ ((s ≡ sid) × (t ≡ serial))
      → count_waiting s t p'.pending_enter_world_finalize_by_assign_request
        ≡ count_waiting s t p.pending_enter_world_finalize_by_assign_request
  pub stage :
      w'.world_enter_stage_by_session_key (pack_session_key sid serial)
      ≡ some WorldEnterStage.closing
  pub no_char :
      (c : ℕ) → w'.pending_enter_session_key_by_char_id c ≢ some (pack_session_key sid serial)

abort_stage-no_char :
    (w : WorldSessions) (sid serial c : ℕ)
    → (abort_stage w sid serial).pending_enter_session_key_by_char_id c
      ≢ some (pack_session_key sid serial)
unfolding abort_stage
abort_stage-no_char w sid serial c = ground arith

abort_stage-closing :
    (w : WorldSessions) (sid serial : ℕ)
    → (abort_stage w sid serial).world_enter_stage_by_session_key (pack_session_key sid serial)
      ≡ some WorldEnterStage.closing
unfolding abort_stage
abort_stage-closing w sid serial = ground arith

-- The abort of a session with a valid key: in the four tables of pending requests no request of the
-- session is left and each of another session is kept; the session's stage is Closing, and no char
-- is recorded as entering with it.
pub abort-Aborted :
    (w : WorldSessions) (p : PendingFlows) (sid serial : ℕ)
    → is_valid_session_key sid serial ≡ true
    → let r = abort_enter_world_flow_by_session w p sid serial in Aborted w r.0 p r.1 sid serial
unfolding abort_enter_world_flow_by_session erase_pending_consume_by_session
    erase_pending_finalize_by_session erase_pending_snapshot_by_session
    erase_pending_zone_player_enter_by_session
abort-Aborted w p sid serial valid =
    let p1 : PendingFlows = record p {
      pending_enter_world_consume =
          erase_if (is_of_session sid serial) p.pending_enter_world_consume;
    } in
    let l = p.pending_enter_world_finalize_by_assign_request in
    let same = walk-Same sid serial l p1 in
    rw valid (record {
      consume =
          rw (same.consume) (erase_if-PurgedOf (λ r. r) sid serial p.pending_enter_world_consume);
      snapshot = rw (same.snapshot) (
          erase_if-PurgedOf (λ r. r.enter_pending) sid serial
            p.pending_character_enter_snapshot_requests);
      zone_enter = rw (same.zone_enter) (
          erase_if-PurgedOf (λ r. r.enter_pending) sid serial p.pending_zone_player_enter_requests);
      no_finalize = walk-none sid serial l p1;
      other_finalizes = λ s t other. walk-others sid serial s t l p1 other;
      stage = abort_stage-closing w sid serial;
      no_char = abort_stage-no_char w sid serial;
    })

-- ===== src/Account/Registry/Routes.antt =====
-- Which session a world's id leads to.
use new_server.Prelude.{
  ℕ, ◌≡◌, refl, sym, ap, ◌∙◌, inl, inr, true, ◌&&◌, some, List, arith, Map, put, erase,
  if◌then◌else◌, nat_beq_iff, ◌==◌, Bool-cases, Option-cases, nat_eq, bytes_eq,
}
use new_server.Session.Key.{is_same_session_key}
use new_server.Account.Types.{ConfiguredWorldEntry, RegisteredWorldEndpoint}
use new_server.Account.Registry.{
  new_endpoint, register_route, WorldRegistry, update_route, find_route, claim_world,
  on_world_route_heartbeat, on_world_server_hello, on_world_ready_notify, drop_previous_route,
  on_world_route_disconnected,
}

-- Each route stands under the session that its endpoint names.
abbrev pub KeyedBySid : WorldRegistry → Type 0
KeyedBySid w = (sid : ℕ) (e : RegisteredWorldEndpoint) → w.worlds_by_sid sid ≡ some e → e.sid ≡ sid

put-keyed :
    (m : Map ℕ RegisteredWorldEndpoint) (k : ℕ) (x : RegisteredWorldEndpoint)
    → x.sid ≡ k
    → ((sid : ℕ) (e : RegisteredWorldEndpoint) → m sid ≡ some e → e.sid ≡ sid)
    → (sid : ℕ) (e : RegisteredWorldEndpoint) → put m k x sid ≡ some e
    → e.sid ≡ sid
put-keyed m k x named keyed sid e held = elim (Bool-cases (k == sid)) [
  | inl hit ↦
      let same : x ≡ e = cc (rw (hit, put) at held) in
      let at : k ≡ sid = (nat_beq_iff k sid).0 hit in ap (λ y. y.sid) (sym same) ∙ named ∙ at
  | inr miss ↦ keyed sid e (rw (miss, put) at held)
]

pub erase-keyed :
    (m : Map ℕ RegisteredWorldEndpoint) (k : ℕ)
    → ((sid : ℕ) (e : RegisteredWorldEndpoint) → m sid ≡ some e → e.sid ≡ sid)
    → (sid : ℕ) (e : RegisteredWorldEndpoint) → erase m k sid ≡ some e
    → e.sid ≡ sid
erase-keyed m k keyed sid e held = elim (Bool-cases (k == sid)) [
  | inl hit ↦ absurd (cc (rw (hit, erase) at held))
  | inr miss ↦ keyed sid e (rw (miss, erase) at held)
]

route-found :
    (w : WorldRegistry) (sid serial : ℕ) (e : RegisteredWorldEndpoint)
    → find_route w sid serial ≡ some e
    → (w.worlds_by_sid sid ≡ some e) × (e.sid ≡ sid) × (e.serial ≡ serial)
unfolding find_route is_same_session_key
route-found w sid serial e h = ground arith

pub ready-KeyedBySid :
    (w : WorldRegistry) (sid serial world_id flags now : ℕ)
    → KeyedBySid w
    → KeyedBySid (on_world_ready_notify w sid serial world_id flags now)
unfolding on_world_ready_notify
ready-KeyedBySid w sid serial world_id flags now keyed =
    elim (Option-cases (find_route w sid serial)) [
      | inl e ↦ rw (e, on_world_ready_notify) keyed
      | inr (x, e) ↦
          rw (e, on_world_ready_notify)
            (put-keyed w.worlds_by_sid sid
              (record x {
                ready = true;
                world_id = world_id;
                flags = flags;
                last_heartbeat_at = now;
              })
              (route-found w sid serial x e).1 keyed)
    ]

update-KeyedBySid :
    (w : WorldRegistry) (sid : ℕ) (cfg : ConfiguredWorldEntry)
    → KeyedBySid w
    → KeyedBySid (update_route w sid cfg)
unfolding update_route
update-KeyedBySid w sid cfg keyed = elim (Option-cases (w.worlds_by_sid sid)) [
  | inl e ↦ rw (e, update_route) keyed
  | inr (x, e) ↦
      rw (e, update_route)
        (put-keyed w.worlds_by_sid sid
          (record x {
            world_id = cfg.world_id;
            db_name = cfg.db_dns;
            db_user = cfg.db_id;
            db_password = cfg.db_pw;
          })
          (keyed sid x e) keyed)
]

drop-keyed :
    (w : WorldRegistry) (sid world_id : ℕ)
    → KeyedBySid w
    → (k : ℕ) (e : RegisteredWorldEndpoint) → drop_previous_route w sid world_id k ≡ some e
    → e.sid ≡ k
unfolding drop_previous_route
drop-keyed w sid world_id keyed = elim (Option-cases (w.world_sid_by_world_id world_id)) [
  | inl e ↦ rw (e, drop_previous_route) keyed
  | inr (old, e) ↦ elim (Bool-cases (old == sid)) [
    | inl hit ↦ rw (e, drop_previous_route) (rw hit keyed)
    | inr miss ↦ rw (e, drop_previous_route) (rw miss (erase-keyed w.worlds_by_sid old keyed))
  ]
]

claim-KeyedBySid :
    (w : WorldRegistry) (sid world_id : ℕ) → KeyedBySid w → KeyedBySid (claim_world w sid world_id)
unfolding claim_world
claim-KeyedBySid w sid world_id keyed = elim (Bool-cases (world_id == 0)) [
  | inl e ↦ rw e keyed
  | inr e ↦ rw e (drop-keyed w sid world_id keyed)
]

pub hello-KeyedBySid :
    (w : WorldRegistry) (sid serial : ℕ) (name host : List ℕ) (port now : ℕ)
    → KeyedBySid w
    → KeyedBySid (on_world_server_hello w sid serial name host port now).0
unfolding on_world_server_hello register_route new_endpoint
hello-KeyedBySid w sid serial name host port now keyed =
    elim (Option-cases (w.configured_worlds_by_name name)) [
      | inl e ↦ rw (e, on_world_server_hello) keyed
      | inr (cfg, e) ↦
          let u = update_route w sid cfg in
          rw (e, on_world_server_hello)
            (put-keyed (claim_world u sid cfg.world_id).worlds_by_sid sid
              (new_endpoint sid serial cfg name host port now) refl
              (claim-KeyedBySid u sid cfg.world_id (update-KeyedBySid w sid cfg keyed)))
    ]

pub disconnected-KeyedBySid :
    (w : WorldRegistry) (sid serial : ℕ)
    → KeyedBySid w
    → KeyedBySid (on_world_route_disconnected w sid serial).0
unfolding on_world_route_disconnected
disconnected-KeyedBySid w sid serial keyed = elim (Option-cases (find_route w sid serial)) [
  | inl e ↦ rw (e, on_world_route_disconnected) keyed
  | inr (x, e) ↦ rw (e, on_world_route_disconnected) (erase-keyed w.worlds_by_sid sid keyed)
]

pub heartbeat-KeyedBySid :
    (w : WorldRegistry) (sid serial world_id zones load flags now : ℕ)
    → KeyedBySid w
    → KeyedBySid (on_world_route_heartbeat w sid serial world_id zones load flags now)
unfolding on_world_route_heartbeat
heartbeat-KeyedBySid w sid serial world_id zones load flags now keyed =
    elim (Option-cases (w.worlds_by_sid sid)) [
      | inl e ↦ rw (e, on_world_route_heartbeat) keyed
      | inr (x, e) ↦
          let beat : RegisteredWorldEndpoint = record x {
            world_id = world_id;
            active_zone_count = zones;
            load_score = load;
            flags = flags;
            last_heartbeat_at = now;
          } in
          let same = x.serial == serial && x.world_id == world_id in
          let after : (on_world_route_heartbeat w sid serial world_id zones load flags
                now).worlds_by_sid
              ≡ (if same then put w.worlds_by_sid sid beat else w.worlds_by_sid) =
            ground arith in
          elim (Bool-cases same) [
            | inl hit ↦ rw (after, hit) (put-keyed w.worlds_by_sid sid beat (keyed sid x e) keyed)
            | inr miss ↦ rw (after, miss) keyed
          ]
    ]

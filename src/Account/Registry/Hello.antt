-- ===== src/Account/Registry/Hello.antt =====
-- What a world's hello, and its ready notify, make of the look-ups by world id.
use new_server.Prelude.{
  ℕ, ◌≡◌, refl, ◌≢◌, inl, inr, true, false, Option, none, some, List, arith, Option-cases,
}
use new_server.Session.Key.{is_valid_session_key, is_same_session_key}
use new_server.Account.Types.{RegisteredWorldEndpoint, ConfiguredWorldEntry}
use new_server.Account.Registry.{
  drop_previous_route, update_route, claim_world, register_route, find_route, on_world_ready_notify,
  new_endpoint, try_resolve_world_route_session_by_id, on_world_server_hello, is_world_selectable,
  WorldRegistry, try_resolve_registered_world_id,
}

-- What a hello makes of the look-ups of its world.
pub record Registered (w : WorldRegistry) (sid serial world_id : ℕ) (previous : Option ℕ)
    : Type 0 where
  pub found : try_resolve_world_route_session_by_id w world_id ≡ some (sid, serial)
  pub sender : try_resolve_registered_world_id w sid serial ≡ some world_id
  pub not_ready :
      (e : RegisteredWorldEndpoint) → w.worlds_by_sid sid ≡ some e → is_world_selectable e ≡ false
  pub evicted : (old : ℕ) → previous ≡ some old → old ≢ sid → w.worlds_by_sid old ≡ none

new_endpoint-not_ready :
    (sid serial : ℕ) (cfg : ConfiguredWorldEntry) (name host : List ℕ) (port now : ℕ)
    → is_world_selectable (new_endpoint sid serial cfg name host port now) ≡ false
unfolding is_world_selectable new_endpoint
new_endpoint-not_ready sid serial cfg name host port now = refl

registered-after :
    (w : WorldRegistry) (sid serial : ℕ) (name host : List ℕ) (port now : ℕ)
    (cfg : ConfiguredWorldEntry)
    → w.configured_worlds_by_name name ≡ some cfg
    → cfg.world_id ≢ 0
    → is_valid_session_key sid serial ≡ true
    → let w' = (on_world_server_hello w sid serial name host port now).0 in
      (w'.world_sid_by_world_id cfg.world_id ≡ some sid)
      × (w'.worlds_by_sid sid ≡ some (new_endpoint sid serial cfg name host port now))
      × ((old : ℕ)
          → w.world_sid_by_world_id cfg.world_id ≡ some old
          → old ≢ sid
          → w'.worlds_by_sid old ≡ none)
unfolding on_world_server_hello register_route claim_world update_route drop_previous_route
    new_endpoint
registered-after w sid serial name host port now cfg e nonzero valid =
    (ground arith, ground arith, λ old held other. ground arith)

resolve-of :
    (w : WorldRegistry) (sid serial : ℕ) (cfg : ConfiguredWorldEntry) (name host : List ℕ)
    (port now : ℕ)
    → cfg.world_id ≢ 0
    → is_valid_session_key sid serial ≡ true
    → w.world_sid_by_world_id cfg.world_id ≡ some sid
    → w.worlds_by_sid sid ≡ some (new_endpoint sid serial cfg name host port now)
    → (try_resolve_world_route_session_by_id w cfg.world_id ≡ some (sid, serial))
      × (try_resolve_registered_world_id w sid serial ≡ some cfg.world_id)
unfolding try_resolve_world_route_session_by_id try_resolve_registered_world_id find_route
    is_same_session_key new_endpoint
resolve-of w sid serial cfg name host port now nonzero valid index held =
    (ground arith, ground arith)

-- After the hello of a configured world with an id, the world's id leads to the session that said
-- hello and the session stands for that world, which no client can select until it is ready; another
-- session that the id led to before has no route any more.
pub hello-Registered :
    (w : WorldRegistry) (sid serial : ℕ) (name host : List ℕ) (port now : ℕ)
    (cfg : ConfiguredWorldEntry)
    → w.configured_worlds_by_name name ≡ some cfg
    → cfg.world_id ≢ 0
    → is_valid_session_key sid serial ≡ true
    → Registered
        (on_world_server_hello w sid serial name host port now).0
        sid
        serial
        cfg.world_id
        (w.world_sid_by_world_id cfg.world_id)
hello-Registered w sid serial name host port now cfg e nonzero valid =
    let w' = (on_world_server_hello w sid serial name host port now).0 in
    let (index, held, gone) =
      registered-after w sid serial name host port now cfg e nonzero valid in
    let (found, sender) =
      resolve-of w' sid serial cfg name host port now nonzero valid index held in
    record {
      found = found;
      sender = sender;
      not_ready = λ x at.
          let same : new_endpoint sid serial cfg name host port now ≡ x = cc (held, at) in
          rw (← same) (new_endpoint-not_ready sid serial cfg name host port now);
      evicted = gone;
    }

-- A ready notify that carries another world id changes the world of the route, not the index: the
-- old world's id still leads to the session, which now stands for the new world.
pub ready_stale_index :
    (w : WorldRegistry) (sid serial world_id new_world_id flags now : ℕ)
    → try_resolve_registered_world_id w sid serial ≡ some world_id
    → w.world_sid_by_world_id world_id ≡ some sid
    → is_valid_session_key sid serial ≡ true
    → new_world_id ≢ 0
    → let w' = on_world_ready_notify w sid serial new_world_id flags now in
      (try_resolve_registered_world_id w' sid serial ≡ some new_world_id)
      × (try_resolve_world_route_session_by_id w' world_id ≡ some (sid, serial))
unfolding try_resolve_registered_world_id on_world_ready_notify find_route is_same_session_key
    try_resolve_world_route_session_by_id
ready_stale_index w sid serial world_id new flags now stands index valid nonzero =
    elim (Option-cases (w.worlds_by_sid sid)) [
      | inl e ↦ absurd (ground arith)
      | inr (x, e) ↦ (ground arith, ground arith)
    ]

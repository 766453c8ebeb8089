-- ===== src/Account/Registry.antt =====
-- The registered world routes (src/services/account/runtime/account_line_runtime.cpp): hello, ready,
-- heartbeat, disconnect and the look-ups. `worlds_by_sid_` and the index by world id are finite maps;
-- a loop over `worlds_by_sid_` takes the order in which the container visits its keys.
pub mod Hello
pub mod Routes
use new_server.Prelude.{
  ℕ, ◌/◌, ◌%◌, Bool, true, false, ◌&&◌, ◌||◌, not, Option, none, some, List, [], is_empty, Map, put,
  erase, if◌then◌else◌, ◌==◌, nat_eq,
}
use new_server.Account.Types.{RegisteredWorldEndpoint, ConfiguredWorldEntry}
use new_server.Session.Key.{is_same_session_key, is_valid_session_key}

pub record WorldRegistry : Type 0 where
  pub configured_worlds_by_name : Map (List ℕ) ConfiguredWorldEntry
  pub worlds_by_sid : Map ℕ RegisteredWorldEndpoint
  pub world_sid_by_world_id : Map ℕ ℕ

-- The route of a session, when its key is the caller's.
unfoldable pub find_route : WorldRegistry → ℕ → ℕ → Option RegisteredWorldEndpoint
find_route w sid serial = elim (w.worlds_by_sid sid) [
  | none ↦ none
  | some e ↦ if is_same_session_key e.sid e.serial sid serial then some e else none
]

unfoldable pub on_world_ready_notify : WorldRegistry → ℕ → ℕ → ℕ → ℕ → ℕ → WorldRegistry
on_world_ready_notify w sid serial world_id flags now = elim (find_route w sid serial) [
  | none ↦ w
  | some e ↦ record w {
    worlds_by_sid =
        put w.worlds_by_sid sid
          (record e { ready = true; world_id = world_id; flags = flags; last_heartbeat_at = now });
  }
]

unfoldable pub new_endpoint :
    ℕ → ℕ → ConfiguredWorldEntry → List ℕ → List ℕ → ℕ → ℕ → RegisteredWorldEndpoint
new_endpoint sid serial cfg server_name public_host public_port now = record {
  sid = sid;
  serial = serial;
  world_id = cfg.world_id;
  active_zone_count = 0;
  load_score = 0;
  flags = 0;
  server_name = server_name;
  public_host = public_host;
  public_port = public_port;
  ready = false;
  db_name = [];
  db_user = [];
  db_password = [];
  registered_at = now;
  last_heartbeat_at = now;
}

-- The first critical section of a hello: the route that the session has takes the world's data.
unfoldable pub update_route : WorldRegistry → ℕ → ConfiguredWorldEntry → WorldRegistry
update_route w sid cfg = elim (w.worlds_by_sid sid) [
  | none ↦ w
  | some e ↦ record w {
    worlds_by_sid = put w.worlds_by_sid sid (record e {
      world_id = cfg.world_id;
      db_name = cfg.db_dns;
      db_user = cfg.db_id;
      db_password = cfg.db_pw;
    });
  }
]

-- The route of another session under the same world is dropped.
unfoldable pub drop_previous_route : WorldRegistry → ℕ → ℕ → Map ℕ RegisteredWorldEndpoint
drop_previous_route w sid world_id = elim (w.world_sid_by_world_id world_id) [
  | none ↦ w.worlds_by_sid
  | some old ↦ if old == sid then w.worlds_by_sid else erase w.worlds_by_sid old
]

unfoldable pub claim_world : WorldRegistry → ℕ → ℕ → WorldRegistry
claim_world w sid world_id = if world_id == 0 then w else record w {
  worlds_by_sid = drop_previous_route w sid world_id;
  world_sid_by_world_id = put w.world_sid_by_world_id world_id sid;
}

-- The second critical section: the new endpoint replaces whatever the session had.
unfoldable pub register_route : WorldRegistry → RegisteredWorldEndpoint → WorldRegistry
register_route w endpoint =
    let c = claim_world w endpoint.sid endpoint.world_id in
    record c { worlds_by_sid = put c.worlds_by_sid endpoint.sid endpoint }

-- The registry after a hello, and the configured world it was matched with.
unfoldable pub on_world_server_hello :
    WorldRegistry → ℕ → ℕ → List ℕ → List ℕ → ℕ → ℕ → WorldRegistry × Option ConfiguredWorldEntry
on_world_server_hello w sid serial server_name public_host public_port now =
    elim (w.configured_worlds_by_name server_name) [
      | none ↦ (w, none)
      | some cfg ↦ (
        register_route (update_route w sid cfg)
            (new_endpoint sid serial cfg server_name public_host public_port now),
        some cfg,
      )
    ]

-- `world_sid_by_world_id_.erase(idx)` where the index names the session.
unfoldable pub erase_world_index : Map ℕ ℕ → ℕ → ℕ → Map ℕ ℕ
erase_world_index index world_id sid = elim (index world_id) [
  | none ↦ index
  | some s ↦ if not (world_id == 0) && s == sid then erase index world_id else index
]

-- The registry after a disconnect, and the world id of the route that was removed.
unfoldable pub on_world_route_disconnected : WorldRegistry → ℕ → ℕ → WorldRegistry × Option ℕ
on_world_route_disconnected w sid serial = elim (find_route w sid serial) [
  | none ↦ (w, none)
  | some e ↦ (
    record w {
      worlds_by_sid = erase w.worlds_by_sid sid;
      world_sid_by_world_id = erase_world_index w.world_sid_by_world_id e.world_id sid;
    },
    some e.world_id,
  )
]

unfoldable pub on_world_route_heartbeat : WorldRegistry → ℕ → ℕ → ℕ → ℕ → ℕ → ℕ → ℕ → WorldRegistry
on_world_route_heartbeat w sid serial world_id active_zone_count load_score flags now =
    elim (w.worlds_by_sid sid) [
      | none ↦ w
      | some e ↦
          if not (e.serial == serial)
          then w
          else if not (e.world_id == world_id)
          then w
          else record w {
            worlds_by_sid = put w.worlds_by_sid sid (record e {
              world_id = world_id;
              active_zone_count = active_zone_count;
              load_score = load_score;
              flags = flags;
              last_heartbeat_at = now;
            });
          }
    ]

-- `flags & k_world_flag_accepting_players` (bit 0) and `flags & k_world_flag_visible` (bit 1).
unfoldable pub is_world_selectable : RegisteredWorldEndpoint → Bool
is_world_selectable e =
    if not e.ready
    then false
    else if is_empty e.public_host || e.public_port == 0
    then false
    else if e.flags / 2 % 2 == 0
    then false
    else if e.flags % 2 == 0
    then false
    else true

unfoldable pub try_resolve_registered_world_id : WorldRegistry → ℕ → ℕ → Option ℕ
try_resolve_registered_world_id w sid serial = elim (find_route w sid serial) [
  | none ↦ none
  | some e ↦ if e.world_id == 0 then none else some e.world_id
]

unfoldable pub try_resolve_world_route_session_by_id : WorldRegistry → ℕ → Option (ℕ × ℕ)
try_resolve_world_route_session_by_id w world_id = elim (w.world_sid_by_world_id world_id) [
  | none ↦ none
  | some sid ↦ elim (w.worlds_by_sid sid) [
    | none ↦ none
    | some e ↦ if is_valid_session_key e.sid e.serial then some (e.sid, e.serial) else none
  ]
]

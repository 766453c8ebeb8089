-- ===== src/Account/Select/Tests.antt =====
-- The selection among two routes of one world.
use mathlib.Core.List.{IsChain, Permᴰ}
use new_server.Prelude.{ℕ, ◌≡◌, true, none, List, [], ◌∷◌, empty, put, nat_eq, bytes_eq}
use new_server.Account.Select.Offers.{Offers}
use new_server.Account.Messages.{WorldSummary}
use new_server.Account.Select.Route.{select_best-last, last_of_least_world}
use new_server.Account.Select.{build_world_summary_list, select_best}
use new_server.Account.Types.{RegisteredWorldEndpoint}
use new_server.Account.Registry.{WorldRegistry}
use new_server.Account.Select.Listed.{InOrder, build-Sorted}

abbrev route : ℕ → ℕ → RegisteredWorldEndpoint
route sid load = record {
  sid = sid;
  serial = 1;
  world_id = 3;
  active_zone_count = 1;
  load_score = load;
  flags = 3;
  server_name = 119 ∷ [];
  public_host = 119 ∷ [];
  public_port = 7000;
  ready = true;
  db_name = [];
  db_user = [];
  db_password = [];
  registered_at = 0;
  last_heartbeat_at = 0;
}

-- The busier of the two is chosen.
select_best-last_example :
    select_best none (route 1 0 ∷ route 2 90 ∷ [])
    ≡ last_of_least_world none (route 1 0 ∷ route 2 90 ∷ [])
select_best-last_example = select_best-last none (route 1 0 ∷ route 2 90 ∷ [])

abbrev registry : WorldRegistry
registry = record {
  configured_worlds_by_name = empty;
  worlds_by_sid = put (put empty 1 (route 1 90)) 2 (route 2 0);
  world_sid_by_world_id = put empty 3 2;
}

build-Sorted_example :
    let worlds = build_world_summary_list registry (1 ∷ 2 ∷ []) in
    IsChain InOrder worlds
    × ((xs : List WorldSummary) × Offers registry (1 ∷ 2 ∷ []) xs × Permᴰ worlds xs)
build-Sorted_example = build-Sorted registry (1 ∷ 2 ∷ [])

-- ===== src/Account/Select.antt =====
-- The choice of a world (src/services/account/runtime/account_line_runtime.cpp): the list offered to
-- a client, the route of a chosen world, and the route that is chosen for the client. Each visits
-- `worlds_by_sid_` in the container's order: the list of its keys is an argument.
pub mod Route
pub mod Offers
pub mod Listed
pub mod Tests
use new_server.Prelude.{
  ℕ, Bool, ◌&&◌, ◌||◌, not, Option, none, some, List, [], ◌∷◌, map, ltb, if◌then◌else◌, ◌==◌,
  nat_eq, bytes_eq,
}
use new_server.Account.Registry.{is_world_selectable, WorldRegistry}
use new_server.Account.Types.{c_string, RegisteredWorldEndpoint}
use new_server.Account.Messages.{WorldSummary}

abbrev pub k_service_name_max_len : ℕ
k_service_name_max_len = 32

abbrev pub k_world_host_max_len : ℕ
k_world_host_max_len = 64

-- The selectable endpoints in the order of the visit.
unfoldable pub selectable_routes : WorldRegistry → List ℕ → List RegisteredWorldEndpoint
selectable_routes w [] = []
selectable_routes w (sid ∷ order) =
    let rest = selectable_routes w order in
    elim (w.worlds_by_sid sid) [
      | none ↦ rest
      | some e ↦ if is_world_selectable e then e ∷ rest else rest
    ]

unfoldable pub summary_of : RegisteredWorldEndpoint → WorldSummary
summary_of e = record {
  world_id = e.world_id;
  channel_id = 0;
  active_zone_count = e.active_zone_count;
  load_score = e.load_score;
  public_port = e.public_port;
  flags = e.flags;
  server_name = c_string k_service_name_max_len e.server_name;
  public_host = c_string k_world_host_max_len e.public_host;
}

-- The comparison of the sort.
unfoldable pub summary_before : WorldSummary → WorldSummary → Bool
summary_before a b =
    if not (a.world_id == b.world_id)
    then ltb a.world_id b.world_id
    else if not (a.channel_id == b.channel_id)
    then ltb a.channel_id b.channel_id
    else if not (a.load_score == b.load_score)
    then ltb a.load_score b.load_score
    else ltb b.active_zone_count a.active_zone_count

-- `std::sort`, which leaves open the order of summaries that the comparison does not tell apart.
unfoldable pub insert_summary : WorldSummary → List WorldSummary → List WorldSummary
insert_summary s [] = s ∷ []
insert_summary s (x ∷ xs) =
    let rest = insert_summary s xs in if summary_before x s then x ∷ rest else s ∷ x ∷ xs

unfoldable pub sort_summaries : List WorldSummary → List WorldSummary
sort_summaries [] = []
sort_summaries (x ∷ xs) = insert_summary x (sort_summaries xs)

unfoldable pub build_world_summary_list : WorldRegistry → List ℕ → List WorldSummary
build_world_summary_list w order = sort_summaries (map summary_of (selectable_routes w order))

unfoldable pub first_of_world : ℕ → List RegisteredWorldEndpoint → Option (List ℕ × ℕ)
first_of_world world_id [] = none
first_of_world world_id (e ∷ es) =
    let rest = first_of_world world_id es in
    if e.world_id == world_id then some (e.public_host, e.public_port) else rest

unfoldable pub try_resolve_selected_world_route : WorldRegistry → List ℕ → ℕ → Option (List ℕ × ℕ)
try_resolve_selected_world_route w order world_id =
    first_of_world world_id (selectable_routes w order)

-- The test that replaces the endpoint selected so far.
unfoldable pub replaces : RegisteredWorldEndpoint → RegisteredWorldEndpoint → Bool
replaces e selected =
    ltb e.world_id selected.world_id
    || (e.world_id == selected.world_id)
    || (e.world_id == selected.world_id && ltb e.load_score selected.load_score)
    || (e.world_id == selected.world_id
        && e.load_score == selected.load_score
        && ltb selected.active_zone_count e.active_zone_count)

unfoldable pub select_best :
    Option RegisteredWorldEndpoint → List RegisteredWorldEndpoint → Option RegisteredWorldEndpoint
select_best selected [] = selected
select_best none (e ∷ es) = select_best (some e) es
select_best (some s) (e ∷ es) = select_best (some (if replaces e s then e else s)) es

unfoldable pub try_select_world_route_endpoint : WorldRegistry → List ℕ → Option (List ℕ × ℕ × ℕ)
try_select_world_route_endpoint w order = elim (select_best none (selectable_routes w order)) [
  | none ↦ none
  | some e ↦ some (e.public_host, e.public_port, e.world_id)
]

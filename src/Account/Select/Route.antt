-- ===== src/Account/Select/Route.antt =====
-- The route that is chosen for a client.
use new_server.Prelude.{◌≡◌, refl, Option, none, some, List, [], ◌∷◌, arith, leb, if◌then◌else◌}
use new_server.Account.Select.{select_best, replaces}
use new_server.Account.Types.{RegisteredWorldEndpoint}

-- The last of the endpoints with the least world id: `selected` is the choice among those before.
unfoldable pub last_of_least_world :
    Option RegisteredWorldEndpoint → List RegisteredWorldEndpoint → Option RegisteredWorldEndpoint
last_of_least_world selected [] = selected
last_of_least_world none (e ∷ es) = last_of_least_world (some e) es
last_of_least_world (some s) (e ∷ es) =
    last_of_least_world (some (if leb e.world_id s.world_id then e else s)) es

replaces_iff : (e s : RegisteredWorldEndpoint) → replaces e s ≡ leb e.world_id s.world_id
unfolding replaces
replaces_iff e s = ground arith

-- The selection takes the last endpoint that is visited among those of the least world id: the
-- comparisons of the load and of the number of zones decide nothing.
pub select_best-last :
    (selected : Option RegisteredWorldEndpoint) (es : List RegisteredWorldEndpoint)
    → select_best selected es ≡ last_of_least_world selected es
unfolding select_best last_of_least_world
select_best-last selected [] = refl
select_best-last none (e ∷ es) = select_best-last (some e) es
select_best-last (some s) (e ∷ es) =
    rw (replaces_iff e s) (select_best-last (some (if leb e.world_id s.world_id then e else s)) es)

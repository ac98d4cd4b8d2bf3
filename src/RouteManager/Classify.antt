-- ===== src/RouteManager/Classify.antt =====
-- ClassifyRoutes, initialClientRoutes and isRouteSupported of go/internal/routemanager/manager.go.
pub mod Split
pub mod Exact
mod Tests
use netbird_minimal.Common.{
  ℕ, String, Bool, true, false, not, ◌||◌, Option, none, some, List, [], ◌∷◌, ◌++◌, if◌then◌else◌,
  leb, str_eq, contains,
}
use netbird_minimal.Common.Dict.{Dict, lookup, insert}
use netbird_minimal.RouteManager.RouteEnv.{RouteEnv}

module _ (env : RouteEnv) where
  open env use {Route}

  -- isRouteSupported
  unfoldable pub is_route_supported : Route → Bool
  is_route_supported r =
      if env.netstack_enabled || not env.custom_routing_disabled || env.is_dynamic r
      then true
      else elim (env.bits r) [ none ↦ false | some n ↦ not (leb n env.min_range_bits) ]

  -- the first loop of ClassifyRoutes: the networks that this peer routes, and their routes
  unfoldable pub server_routes :
      String → List Route → List String → Dict Route → List String × Dict Route
  server_routes pub_key [] own servers = (own, servers)
  server_routes pub_key (r ∷ rs) own servers =
      if str_eq (env.peer r) pub_key
      then server_routes pub_key rs (env.get_ha_unique_id r ∷ own)
          (insert (env.route_id r) r servers)
      else server_routes pub_key rs own servers

  -- `m[id]` of a map of slices, nil where it has none
  abbrev pub routes_at : String → Dict (List Route) → List Route
  routes_at id m = elim (lookup id m) [ none ↦ [] | some rs ↦ rs ]

  -- the second loop of ClassifyRoutes
  unfoldable pub client_routes : List String → List Route → Dict (List Route) → Dict (List Route)
  client_routes own [] clients = clients
  client_routes own (r ∷ rs) clients =
      let id = env.get_ha_unique_id r in
      client_routes own rs (
        if contains id own || not (is_route_supported r)
        then clients
        else insert id (routes_at id clients ++ (r ∷ [])) clients)

  -- ClassifyRoutes
  unfoldable pub classify_routes : String → List Route → Dict Route × Dict (List Route)
  classify_routes pub_key routes =
      let (own, servers) = server_routes pub_key routes [] [] in
      (servers, client_routes own routes [])

  -- the loop of initialClientRoutes
  unfoldable pub all_routes : Dict (List Route) → List Route
  all_routes [] = []
  all_routes ((id, rs) ∷ m) = rs ++ all_routes m

  -- initialClientRoutes
  unfoldable pub initial_client_routes : String → List Route → List Route
  initial_client_routes pub_key routes = all_routes (classify_routes pub_key routes).1

-- ===== src/RouteManager/RouteEnv.antt =====
-- What the route manager calls: routes, the route selector, route handlers, watchers, the notifier
-- and the server router.
use netbird_minimal.Common.{ℕ, String, Bool, Option, List}
use netbird_minimal.Common.Dict.{Dict}

pub record RouteEnv : Type 1 where
  -- route.Route
  pub Route : Type 0
  pub peer : Route → String
  pub route_id : Route → String
  pub get_ha_unique_id : Route → String
  pub is_dynamic : Route → Bool
  -- Network.Bits, `none` for -1, and Network.String
  pub bits : Route → Option ℕ
  pub network_string : Route → String
  pub skip_auto_apply : Route → Bool
  -- HAUniqueID.NetID
  pub net_id : String → String
  -- vars.MinRangeBits and vars.ExitNodeCIDR
  pub min_range_bits : ℕ
  pub exit_node_cidr : String
  -- netstack.IsEnabled and nbnet.CustomRoutingDisabled
  pub netstack_enabled : Bool
  pub custom_routing_disabled : Bool
  -- the route selector
  pub Selector : Type 0
  pub has_user_selection_for_route : Selector → String → Bool
  pub is_selected : Selector → String → Bool
  -- whether it failed, and the selector after it
  pub deselect_routes : List String → List String → Selector → Bool × Selector
  pub select_routes : List String → Bool → List String → Selector → Bool × Selector
  pub filter_selected_exit_nodes : Selector → Dict (List Route) → Dict (List Route)
  -- handlers, watchers and the rest of the client
  pub World : Type 0
  pub Handler : Type 0
  pub Watcher : Type 0
  pub handler_from_route : Route → Bool → World → Handler
  -- whether it failed
  pub add_route : Handler → World → Bool × World
  pub remove_route : Handler → World → Bool × World
  pub new_watcher : Route → Handler → World → Watcher
  pub start_watcher : Watcher → World → World
  pub stop_watcher : Watcher → World → World
  -- SendUpdate with a serial, 0 where it is not set, and the routes
  pub send_update : Watcher → ℕ → List Route → World → World
  pub on_new_routes : Dict (List Route) → World → World
  -- serverRouter.UpdateRoutes: whether it failed
  pub update_server_routes : Dict Route → Bool → World → Bool × World
  -- stateManager.UpdateState of the selector
  pub update_selector_state : Selector → World → World

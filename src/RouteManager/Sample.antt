-- ===== src/RouteManager/Sample.antt =====
-- A small client for the route manager: a route is its identifiers and its peer, a network's id is
-- its route's id, and every handler works.
use netbird_minimal.Common.{ℕ, String, Bool, true, false, some, List, [], ◌∷◌, str_eq}
use netbird_minimal.Common.Dict.{Dict}
use netbird_minimal.RouteManager.RouteEnv.{RouteEnv}

pub record SampleRoute : Type 0 where
  pub id : String
  pub network : String
  pub peer : String
  pub skip : Bool

abbrev pub sample_env : RouteEnv
sample_env = record {
  Route = SampleRoute;
  peer = λ r. r.peer;
  route_id = λ r. r.id;
  get_ha_unique_id = λ r. r.network;
  is_dynamic = λ r. false;
  bits = λ r. some 24;
  network_string = λ r. r.network;
  skip_auto_apply = λ r. r.skip;
  net_id = λ id. id;
  min_range_bits = 7;
  exit_node_cidr = "0.0.0.0/0";
  netstack_enabled = false;
  custom_routing_disabled = true;
  Selector = Unit {0};
  has_user_selection_for_route = λ s id. str_eq id "chosen";
  is_selected = λ s id. true;
  deselect_routes = λ xs ys s. (false, s);
  select_routes = λ xs b ys s. (false, s);
  filter_selected_exit_nodes = λ s m. m;
  World = ℕ;
  Handler = String;
  Watcher = String;
  handler_from_route = λ r b w. r.id;
  add_route = λ h w. (false, w);
  remove_route = λ h w. (false, w);
  new_watcher = λ r h w. h;
  start_watcher = λ c w. w;
  stop_watcher = λ c w. w;
  send_update = λ c n rs w. w;
  on_new_routes = λ m w. w;
  update_server_routes = λ m b w. (false, w);
  update_selector_state = λ s w. w;
}

abbrev pub route_a : SampleRoute
route_a = record { id = "a"; network = "10.0.0.0/8"; peer = "p"; skip = false }

abbrev pub route_b : SampleRoute
route_b = record { id = "b"; network = "0.0.0.0/0"; peer = "me"; skip = false }

abbrev pub sample_networks : Dict (List SampleRoute)
sample_networks = ("10.0.0.0/8", route_a ∷ []) ∷ ("0.0.0.0/0", route_b ∷ []) ∷ []

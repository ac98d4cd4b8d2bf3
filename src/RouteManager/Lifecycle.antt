-- ===== src/RouteManager/Lifecycle.antt =====
-- The start and the end of the route manager: Init, initSelector, resolveURLsToIPs, SetFirewall, Stop
-- and GetClientRoutesWithNetID of go/internal/routemanager/manager.go, over the routing of the
-- system, which is an interface.
pub mod Routing
pub mod Linux
mod Tests
use netbird_minimal.Common.{
  String, ◌≡◌, Bool, true, false, not, ◌&&◌, ◌||◌, Option, none, some, List, [], ◌∷◌, ◌++◌,
  if◌then◌else◌,
}
use netbird_minimal.Common.Dict.{Dict, insert}
use netbird_minimal.RouteManager.RouteEnv.{RouteEnv}

-- systemops.SysOps: SetupRouting for the addresses of the servers, CleanupRouting, and RemoveVPNRoute
-- with the interface of the manager, with whether they failed; what is true of the system after the
-- first two, where they did not fail.
pub record SysOps (Ip Prefix : Type 0) : Type 1 where
  pub System : Type 0
  pub setup_routing : List Ip → System → Bool × System
  pub cleanup_routing : System → Bool × System
  pub remove_vpn_route : Prefix → System → Bool × System
  pub Installed : System → Type 0
  pub Removed : System → Type 0
  pub setup_lem :
      (ips : List Ip) (s : System)
      → (setup_routing ips s).0 ≡ false
      → Installed (setup_routing ips s).1
  pub cleanup_lem : (s : System) → (cleanup_routing s).0 ≡ false → Removed (cleanup_routing s).1

-- What else the start and the end call.
pub record LifeEnv : Type 1 where
  pub Ip : Type 0
  pub Selector : Type 0
  -- routeselector.NewRouteSelector
  pub new_route_selector : Selector
  -- stateManager: `none` where LoadState fails, `some none` where there is no SelectorState
  pub load_state : Option (Option Selector)
  -- url.Parse with Hostname, and net.LookupIP
  pub parse_url : String → Option String
  pub lookup_ip : String → Option (List Ip)
  -- the addresses of the services, and of the relays where there is a relay manager
  pub management_url : String
  pub signal_url : String
  pub relay_urls : Option (List String)
  -- nbnet.CustomRoutingDisabled
  pub custom_routing_disabled : Bool
  -- netstack.IsEnabled
  pub netstack_enabled : Bool
  -- the rest of the client: the wait for the watchers behind the closed context, the server router
  -- with whether NewRouter failed, and the reference counters, whose errors are only logged
  pub World : Type 0
  pub wait_watchers : World → World
  pub new_router : World → Bool × World
  pub router_clean_up : World → World
  -- routeRefCounter.Flush with the function that it removes a prefix by, over the system of that
  pub Prefix : Type 0
  pub flush_routes :
      {System : Type 0} → (Prefix → System → Bool × System) → World × System → World × System
  pub flush_allowed_ips : World → World

module _ (env : LifeEnv) (ops : SysOps env.Ip env.Prefix) where
  open env use {Ip, Selector, World}

  -- the fields of DefaultManager that the start and the end read or set
  pub record Life : Type 0 where
    pub route_selector : Option Selector
    pub closed : Bool
    pub has_firewall : Bool
    pub has_server_router : Bool
    pub disable_client_routes : Bool
    pub disable_server_routes : Bool
    -- clientRoutes is not nil
    pub has_client_routes : Bool
    pub system : ops.System
    pub world : World

  -- initSelector
  unfoldable pub init_selector : Selector
  init_selector = elim env.load_state [
    | none ↦ env.new_route_selector
    | some none ↦ env.new_route_selector
    | some (some selector) ↦ selector
  ]

  -- resolveURLsToIPs: a URL that does not parse or resolve is left out
  unfoldable pub resolve_urls_to_ips : List String → List Ip
  resolve_urls_to_ips [] = []
  resolve_urls_to_ips (u ∷ us) =
      let rest = resolve_urls_to_ips us in
      elim (env.parse_url u) [
        | none ↦ rest
        | some host ↦ elim (env.lookup_ip host) [ none ↦ rest | some ips ↦ ips ++ rest ]
      ]

  -- the initial addresses of Init
  unfoldable pub initial_addresses : List String
  initial_addresses =
      env.management_url ∷ env.signal_url ∷ (elim env.relay_urls [ none ↦ [] | some urls ↦ urls ])

  -- Init: an error of CleanupRouting is only logged; the Boolean says that it failed
  unfoldable pub init : Life → Bool × Life
  unfolding init_selector resolve_urls_to_ips initial_addresses
  init s =
      let s1 : Life = record s { route_selector = some init_selector } in
      if env.custom_routing_disabled || s.disable_client_routes
      then (false, s1)
      else (let cleaned = (ops.cleanup_routing s.system).1 in
          let (failed, system) =
            ops.setup_routing (resolve_urls_to_ips initial_addresses) cleaned in
          (failed, record s1 { system = system }))

  -- SetFirewall of a firewall that is there or nil; the Boolean says that it failed
  unfoldable pub set_firewall : Bool → Life → Bool × Life
  set_firewall firewall s =
      let s1 : Life = record s { has_firewall = firewall } in
      if s.disable_server_routes || not firewall
      then (false, s1)
      else (let (failed, w) = env.new_router s.world in
          (failed, record s1 { has_server_router = not failed; world = w }))

  -- the function of setupRefCounters that removes a prefix: with useNoop it does nothing
  unfoldable pub remove_prefix : Life → env.Prefix → ops.System → Bool × ops.System
  remove_prefix s p system =
      if env.netstack_enabled || s.disable_client_routes
      then (false, system)
      else ops.remove_vpn_route p system

  -- Stop up to the flush of routeRefCounter: the world and the system behind it
  unfoldable pub flushed : Life → World × ops.System
  flushed s =
      let w1 = env.wait_watchers s.world in
      let w2 = if s.has_server_router then env.router_clean_up w1 else w1 in
      env.flush_routes (remove_prefix s) (w2, s.system)

  -- Stop: an error of CleanupRouting is only logged
  unfoldable pub stop : Life → Life
  stop s =
      let (w, system) = flushed s in
      let cleaned =
        if not env.custom_routing_disabled && not s.disable_client_routes
        then (ops.cleanup_routing system).1
        else system in
      record s {
        closed = true;
        has_client_routes = false;
        system = cleaned;
        world = env.flush_allowed_ips w;
      }

-- GetClientRoutesWithNetID: of two networks with one id the later in the range is kept
unfoldable pub client_routes_with_net_id :
    (env : RouteEnv) → Dict (List env.Route) → Dict (List env.Route)
client_routes_with_net_id env m = renamed m []
  where
    renamed : Dict (List env.Route) → Dict (List env.Route) → Dict (List env.Route)
    renamed [] routes = routes
    renamed ((id, v) ∷ m) routes = renamed m (insert (env.net_id id) v routes)

-- ===== src/RouteManager/Networks.antt =====
-- The client networks of the route manager: updateSystemRoutes, stopObsoleteClients,
-- updateClientNetworks, UpdateRoutes and TriggerSelection of go/internal/routemanager/manager.go.
-- An association list gives the order in which Go ranges over a map.
pub mod Obsolete
pub mod Handlers
pub mod InStep
mod Tests
use netbird_minimal.Common.{
  ℕ, String, Bool, true, false, not, Option, none, some, List, [], ◌∷◌, ◌++◌, if◌then◌else◌,
  is_some,
}
use netbird_minimal.Common.Dict.{Dict, lookup, insert, erase}
use netbird_minimal.Common.Outcome.{Outcome, ok, err, panic}
use netbird_minimal.RouteManager.RouteEnv.{RouteEnv}
use netbird_minimal.RouteManager.ExitNodes.{update_route_selector_from_management}

-- the errors of an update, with the id of the route
pub data UpdateError : Type 0 where
  remove_failed add_failed : String → UpdateError
  server_failed : UpdateError

module _ (env : RouteEnv) where
  open env use {Route, Selector, World, Handler, Watcher}

  -- DefaultManager, with the rest of the client
  pub record Manager : Type 0 where
    pub client_networks : Dict Watcher
    pub active_routes : Dict Handler
    pub client_routes : Dict (List Route)
    pub use_new_dns_route : Bool
    pub disable_client_routes : Bool
    -- serverRouter is not nil
    pub has_server_router : Bool
    pub selector : Selector
    pub world : World

  -- the first loop of updateSystemRoutes
  unfoldable pub wanted : Dict (List Route) → Dict Route → Dict Route
  wanted [] to_add = to_add
  wanted ((id, []) ∷ m) to_add = wanted m to_add
  wanted ((id, r ∷ rs) ∷ m) to_add = wanted m (insert id r to_add)

  -- the second loop: what is still to add, and what to remove
  unfoldable pub compare_active :
      Dict Handler → Dict Route → Dict Handler → Dict Route × Dict Handler
  compare_active [] to_add to_remove = (to_add, to_remove)
  compare_active ((id, h) ∷ m) to_add to_remove =
      if is_some (lookup id to_add)
      then compare_active m (erase id to_add) to_remove
      else compare_active m to_add (insert id h to_remove)

  -- the loop that removes
  unfoldable pub remove_handlers : Dict Handler → Manager → List UpdateError × Manager
  remove_handlers [] s = ([], s)
  remove_handlers ((id, h) ∷ m) s =
      let (failed, w) = env.remove_route h s.world in
      let (es, s') =
        remove_handlers m (record s { active_routes = erase id s.active_routes; world = w }) in
      (if failed then remove_failed id ∷ es else es, s')

  -- the loop that adds
  unfoldable pub add_handlers : Dict Route → Manager → List UpdateError × Manager
  add_handlers [] s = ([], s)
  add_handlers ((id, r) ∷ m) s =
      let h = env.handler_from_route r s.use_new_dns_route s.world in
      let (failed, w) = env.add_route h s.world in
      let s1 : Manager =
        (if failed
          then record s { world = w }
          else record s { active_routes = insert id h s.active_routes; world = w }) in
      let (es, s') = add_handlers m s1 in (if failed then add_failed id ∷ es else es, s')

  -- updateSystemRoutes
  unfoldable pub update_system_routes : Dict (List Route) → Manager → List UpdateError × Manager
  update_system_routes networks s =
      let (to_add, to_remove) = compare_active s.active_routes (wanted networks []) [] in
      let (es1, s1) = remove_handlers to_remove s in
      let (es2, s2) = add_handlers to_add s1 in (es1 ++ es2, s2)

  -- stopObsoleteClients, over the watchers that the loop still has before it
  unfoldable pub stop_clients : Dict (List Route) → Dict Watcher → Manager → Manager
  stop_clients networks [] s = s
  stop_clients networks ((id, c) ∷ m) s = stop_clients networks m (
      if is_some (lookup id networks) then s else record s {
        client_networks = erase id s.client_networks;
        world = env.stop_watcher c s.world;
      })

  unfoldable pub stop_obsolete_clients : Dict (List Route) → Manager → Manager
  stop_obsolete_clients networks s = stop_clients networks s.client_networks s

  -- a new watcher for a network, started and kept; `routes[0]` panics on no routes
  unfoldable pub start_client :
      String → List Route → Handler → Manager → Outcome UpdateError (Watcher) × Manager
  start_client id [] h s = (panic, s)
  start_client id (r ∷ rs) h s =
      let c = env.new_watcher r h s.world in
      (
        ok c,
        record s {
          client_networks = insert id c s.client_networks;
          world = env.start_watcher c s.world;
        },
      )

  -- SendUpdate behind a watcher that was started
  abbrev pub send_to :
      ℕ
      → List Route
      → Outcome UpdateError Watcher × Manager
      → Outcome UpdateError (Unit {0}) × Manager
  send_to serial routes (ok c, s) =
      (ok tt, record s { world = env.send_update c serial routes s.world })
  send_to serial routes (err e, s) = (err e, s)
  send_to serial routes (panic, s) = (panic, s)

  -- one round of the loop of updateClientNetworks
  unfoldable pub update_client :
      ℕ → String → List Route → Manager → Outcome UpdateError (Unit {0}) × Manager
  update_client serial id routes s = elim (lookup id s.client_networks) [
    | some c ↦ send_to serial routes (ok c, s)
    | none ↦ elim (lookup id s.active_routes) [
      | none ↦ (ok tt, s)
      | some h ↦ send_to serial routes (start_client id routes h s)
    ]
  ]

  -- one round of the loop of TriggerSelection, which leaves a watcher that is there alone
  unfoldable pub trigger_client :
      String → List Route → Manager → Outcome UpdateError (Unit {0}) × Manager
  trigger_client id routes s = elim (lookup id s.client_networks) [
    | some c ↦ (ok tt, s)
    | none ↦ elim (lookup id s.active_routes) [
      | none ↦ (ok tt, s)
      | some h ↦ send_to 0 routes (start_client id routes h s)
    ]
  ]

  -- a loop over the networks, which a panic ends
  unfoldable pub for_networks :
      (String → List Route → Manager → Outcome UpdateError (Unit {0}) × Manager)
      → Dict (List Route)
      → Manager
      → Outcome UpdateError (Unit {0}) × Manager
  for_networks f [] s = (ok tt, s)
  for_networks f ((id, routes) ∷ m) s =
      let (o, s') = f id routes s in
      elim o [ ok u ↦ for_networks f m s' | err e ↦ (err e, s') | panic ↦ (panic, s') ]

  -- updateClientNetworks
  unfoldable pub update_client_networks :
      ℕ → Dict (List Route) → Manager → Outcome UpdateError (Unit {0}) × Manager
  update_client_networks serial networks s =
      for_networks (update_client serial) networks (stop_obsolete_clients networks s)

  -- the middle of UpdateRoutes, for client routes that are not disabled
  unfoldable pub update_clients :
      ℕ → Dict (List Route) → Manager → Outcome (List UpdateError) (List UpdateError) × Manager
  update_clients serial routes s =
      let selector = update_route_selector_from_management env routes s.selector in
      let networks = env.filter_selected_exit_nodes selector routes in
      let (es, s1) = update_system_routes networks (record s { selector = selector }) in
      let (o, s2) = update_client_networks serial networks s1 in
      elim o [
        | ok u ↦ (ok es, record s2 { world = env.on_new_routes networks s2.world })
        | err e ↦ (err (e ∷ []), s2)
        | panic ↦ (panic, s2)
      ]

  -- the end of UpdateRoutes, behind the client routes
  unfoldable pub update_servers :
      Dict Route
      → Dict (List Route)
      → Bool
      → List UpdateError
      → Manager
      → List UpdateError × Manager
  update_servers servers routes dns es s =
      let s1 : Manager = record s { client_routes = routes } in
      if not s.has_server_router
      then (es, s1)
      else (let (failed, w) = env.update_server_routes servers dns s.world in
          (if failed then es ++ (server_failed ∷ []) else es, record s1 { world = w }))

  -- UpdateRoutes, for a context that is closed or not
  unfoldable pub update_routes :
      Bool
      → ℕ
      → Dict Route
      → Dict (List Route)
      → Bool
      → Manager
      → Outcome (List UpdateError) (List UpdateError) × Manager
  update_routes closed serial servers routes dns s =
      if closed
      then (ok [], s)
      else (let s1 : Manager = record s { use_new_dns_route = dns } in
          let clients : Outcome (List UpdateError) (List UpdateError) × Manager =
            (if not s.disable_client_routes
              then update_clients serial routes s1
              else (ok [], s1)) in
          elim clients.0 [
            | ok es ↦ let (all, s2) = update_servers servers routes dns es clients.1 in (ok all, s2)
            | err e ↦ (err e, clients.1)
            | panic ↦ (panic, clients.1)
          ])

  -- TriggerSelection: the errors of updateSystemRoutes are only logged
  unfoldable pub trigger_selection :
      Dict (List Route) → Manager → Outcome UpdateError (Unit {0}) × Manager
  trigger_selection all_networks s =
      let networks = env.filter_selected_exit_nodes s.selector all_networks in
      let s1 =
        (update_system_routes networks
          (record s { world = env.on_new_routes networks s.world })).1 in
      let (o, s2) = for_networks trigger_client networks (stop_obsolete_clients networks s1) in
      elim o [
        | ok u ↦ (ok tt, record s2 { world = env.update_selector_state s2.selector s2.world })
        | err e ↦ (err e, s2)
        | panic ↦ (panic, s2)
      ]

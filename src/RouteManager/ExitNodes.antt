-- ===== src/RouteManager/ExitNodes.antt =====
-- The selection of exit nodes by the management server: updateRouteSelectorFromManagement of
-- go/internal/routemanager/manager.go with what it calls.
pub mod Choice
mod Tests
use netbird_minimal.Common.{
  String, Bool, true, false, not, ◌&&◌, List, [], ◌∷◌, ◌++◌, if◌then◌else◌, str_eq, is_empty, keep,
}
use netbird_minimal.Common.Dict.{Dict}
use netbird_minimal.RouteManager.RouteEnv.{RouteEnv}

-- exitNodeInfo
pub record ExitNodeInfo : Type 0 where
  pub all_ids : List String
  pub selected_by_management : List String
  pub user_selected : List String
  pub user_deselected : List String

abbrev pub no_info : ExitNodeInfo
no_info = record {
  all_ids = [];
  selected_by_management = [];
  user_selected = [];
  user_deselected = [];
}

module _ (env : RouteEnv) where
  open env use {Route, Selector}

  -- isExitNodeRoute
  unfoldable pub is_exit_node_route : List Route → Bool
  is_exit_node_route [] = false
  is_exit_node_route (r ∷ rs) = str_eq (env.network_string r) env.exit_node_cidr

  -- categorizeUserSelection
  unfoldable pub categorize_user_selection : Selector → String → ExitNodeInfo → ExitNodeInfo
  categorize_user_selection s id info =
      if env.is_selected s id
      then record info { user_selected = info.user_selected ++ (id ∷ []) }
      else record info { user_deselected = info.user_deselected ++ (id ∷ []) }

  -- checkManagementSelection: the first route that applies by itself ends the loop
  unfoldable pub check_management_selection : List Route → String → ExitNodeInfo → ExitNodeInfo
  check_management_selection [] id info = info
  check_management_selection (r ∷ rs) id info =
      let rest = check_management_selection rs id info in
      if not (env.skip_auto_apply r)
      then record info { selected_by_management = info.selected_by_management ++ (id ∷ []) }
      else rest

  -- one round of the loop of collectExitNodeInfo
  unfoldable pub collect_one : Selector → String → List Route → ExitNodeInfo → ExitNodeInfo
  collect_one s ha_id routes info =
      if not (is_exit_node_route routes)
      then info
      else (let id = env.net_id ha_id in
          let info1 : ExitNodeInfo = record info { all_ids = info.all_ids ++ (id ∷ []) } in
          if env.has_user_selection_for_route s id
          then categorize_user_selection s id info1
          else check_management_selection routes id info1)

  -- collectExitNodeInfo
  unfoldable pub collect_exit_node_info : Selector → Dict (List Route) → ExitNodeInfo → ExitNodeInfo
  collect_exit_node_info s [] info = info
  collect_exit_node_info s ((id, routes) ∷ m) info =
      collect_exit_node_info s m (collect_one s id routes info)

  -- getRoutesToDeselect
  unfoldable pub get_routes_to_deselect : Selector → List String → List String
  get_routes_to_deselect s ids = keep (λ id. not (env.has_user_selection_for_route s id)) ids

  -- deselectExitNodes: an error is only logged
  unfoldable pub deselect_exit_nodes : List String → Selector → Selector
  deselect_exit_nodes ids s = if is_empty ids then s else (env.deselect_routes ids ids s).1

  -- selectExitNodesByManagement: an error is only logged
  unfoldable pub select_exit_nodes_by_management : List String → List String → Selector → Selector
  select_exit_nodes_by_management selected ids s =
      if is_empty selected then s else (env.select_routes selected true ids s).1

  -- updateExitNodeSelections
  unfoldable pub update_exit_node_selections : ExitNodeInfo → Selector → Selector
  update_exit_node_selections info s =
      select_exit_nodes_by_management info.selected_by_management info.all_ids
        (deselect_exit_nodes (get_routes_to_deselect s info.all_ids) s)

  -- updateRouteSelectorFromManagement
  unfoldable pub update_route_selector_from_management : Dict (List Route) → Selector → Selector
  update_route_selector_from_management routes s =
      let info = collect_exit_node_info s routes no_info in
      if is_empty info.all_ids then s else update_exit_node_selections info s

-- ===== src/RouteManager/ExitNodes/Choice.antt =====
-- How collectExitNodeInfo of go/internal/routemanager/manager.go sorts the exit nodes.
use netbird_minimal.Common.{
  String, ◌≡◌, refl, Bool, true, false, not, List, [], ◌∷◌, ◌++◌, arith, if◌then◌else◌, All, ◌⊎◌,
  inl, inr, sym, Bool-cases,
}
use mathlib.Core.Path.{subst}
use netbird_minimal.Common.Dict.{Dict}
use netbird_minimal.RouteManager.RouteEnv.{RouteEnv}
use netbird_minimal.RouteManager.ExitNodes.{
  ExitNodeInfo, no_info, is_exit_node_route, categorize_user_selection, check_management_selection,
  collect_one, collect_exit_node_info,
}

All-snoc :
    (P : String → Type 0) (xs : List String) (x : String) → All P xs → P x → All P (xs ++ (x ∷ []))
All-snoc P [] x a b = (b, tt)
All-snoc P (y ∷ ys) x a b = (a.0, All-snoc P ys x a.1 b)

module _ (env : RouteEnv) (s : env.Selector) where
  open env use {Route}

  -- The user has not chosen.
  abbrev pub IsUnchosen : String → Type 0
  IsUnchosen id = env.has_user_selection_for_route s id ≡ false

  -- The user has chosen the exit node, or has chosen against it.
  abbrev pub IsChosen : Bool → String → Type 0
  IsChosen b id = (env.has_user_selection_for_route s id ≡ true) × (env.is_selected s id ≡ b)

  -- Each choice is under the right heading.
  abbrev pub RespectsUser : ExitNodeInfo → Type 0
  RespectsUser info =
      All IsUnchosen info.selected_by_management
      × All (IsChosen true) info.user_selected
      × All (IsChosen false) info.user_deselected

  categorize-RespectsUser :
      (id : String) (info : ExitNodeInfo)
      → env.has_user_selection_for_route s id ≡ true
      → RespectsUser info
      → RespectsUser (categorize_user_selection env s id info)
  unfolding categorize_user_selection
  categorize-RespectsUser id info h (a, b, c) = split (env.is_selected s id) refl
    where
      split :
          (q : Bool)
          → env.is_selected s id ≡ q
          → RespectsUser (
              if q
              then record info { user_selected = info.user_selected ++ (id ∷ []) }
              else record info { user_deselected = info.user_deselected ++ (id ∷ []) })
      split true e = (a, All-snoc (IsChosen true) info.user_selected id b (h, e), c)
      split false e = (a, b, All-snoc (IsChosen false) info.user_deselected id c (h, e))

  management-RespectsUser :
      (routes : List Route) (id : String) (info : ExitNodeInfo)
      → env.has_user_selection_for_route s id ≡ false
      → RespectsUser info
      → RespectsUser (check_management_selection env routes id info)
  unfolding check_management_selection
  management-RespectsUser [] id info h w = w
  management-RespectsUser (r ∷ rs) id info h (a, b, c) =
      split (not (env.skip_auto_apply r)) (management-RespectsUser rs id info h (a, b, c))
    where
      split :
          (q : Bool)
          → RespectsUser (check_management_selection env rs id info)
          → RespectsUser (
              if q
              then record info { selected_by_management = info.selected_by_management ++ (id ∷ []) }
              else check_management_selection env rs id info)
      split true w = (All-snoc IsUnchosen info.selected_by_management id a h, b, c)
      split false w = w

  -- The id of an exit node is listed.
  abbrev listed : String → ExitNodeInfo → ExitNodeInfo
  listed ha_id info = record info { all_ids = info.all_ids ++ (env.net_id ha_id ∷ []) }

  one-cases :
      (ha_id : String) (routes : List Route) (info : ExitNodeInfo)
      → (collect_one env s ha_id routes info ≡ info)
        ⊎ (((env.has_user_selection_for_route s (env.net_id ha_id) ≡ true)
              × (collect_one env s ha_id routes info
                  ≡ categorize_user_selection env s (env.net_id ha_id) (listed ha_id info)))
            ⊎ ((env.has_user_selection_for_route s (env.net_id ha_id) ≡ false)
                × (collect_one env s ha_id routes info
                    ≡ check_management_selection env routes
                        (env.net_id ha_id)
                        (listed ha_id info))))
  unfolding collect_one
  one-cases ha_id routes info = elim (Bool-cases (is_exit_node_route env routes)) [
    | inr out ↦ inl (ground arith)
    | inl exit ↦ elim (Bool-cases (env.has_user_selection_for_route s (env.net_id ha_id))) [
      | inl has ↦ inr (inl (has, ground arith))
      | inr has ↦ inr (inr (has, ground arith))
    ]
  ]

  one-RespectsUser :
      (ha_id : String) (routes : List Route) (info : ExitNodeInfo)
      → RespectsUser info
      → RespectsUser (collect_one env s ha_id routes info)
  one-RespectsUser ha_id routes info w = elim (one-cases ha_id routes info) [
    | inl e ↦ subst RespectsUser (sym e) w
    | inr (inl (has, e)) ↦
        subst RespectsUser (sym e)
          (categorize-RespectsUser (env.net_id ha_id) (listed ha_id info) has w)
    | inr (inr (has, e)) ↦
        subst RespectsUser (sym e)
          (management-RespectsUser routes (env.net_id ha_id) (listed ha_id info) has w)
  ]

  collect-RespectsUser :
      (m : Dict (List Route)) (info : ExitNodeInfo)
      → RespectsUser info
      → RespectsUser (collect_exit_node_info env s m info)
  unfolding collect_exit_node_info
  collect-RespectsUser [] info w = w
  collect-RespectsUser ((id, routes) ∷ m) info w =
      collect-RespectsUser m (collect_one env s id routes info) (one-RespectsUser id routes info w)

  -- collectExitNodeInfo puts an exit node under the choice of the management server only where the
  -- user has not chosen, and under the user's choices only as the user chose.
  pub collect_exit_node_info-RespectsUser :
      (m : Dict (List Route)) → RespectsUser (collect_exit_node_info env s m no_info)
  collect_exit_node_info-RespectsUser m = collect-RespectsUser m no_info (tt, tt, tt)

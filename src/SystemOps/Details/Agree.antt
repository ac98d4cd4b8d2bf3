-- ===== src/SystemOps/Details/Agree.antt =====
-- getRoutes and getDetailedRoutes of go/internal/routemanager/systemops/systemops_linux.go agree.
use netbird_minimal.Common.{
  ℕ, String, ◌≡◌, refl, sym, ap, ◌∙◌, true, some, List, [], ◌∷◌, map, arith, is_some, All,
}
use netbird_minimal.Common.Outcome.{Outcome, ok, err, panic}
use netbird_minimal.SystemOps.Types.{Family, SysError}
use netbird_minimal.SystemOps.Listing.{ListedRoute, Listing}
use netbird_minimal.SystemOps.Details.{
  process_route_destination, build_detailed_route, detailed_all, get_detailed_routes,
  get_routes_for_family, prefixes, get_routes,
}

module _ (net : Listing) (index_name : String → String) where
  open net use {Ip, Prefix}

  -- A route has a destination.
  abbrev pub HasDst : ListedRoute Ip → Type 0
  HasDst r = is_some r.dst ≡ true

  detailed-dsts :
      (routes : List (ListedRoute Ip)) (table : ℕ) (family : Family) {ps : List Prefix}
      → All HasDst routes
      → prefixes net routes ≡ ok ps
      → map (λ d. d.dst) (detailed_all net index_name routes table family) ≡ ps
  unfolding prefixes detailed_all build_detailed_route process_route_destination
  detailed-dsts [] table family has h = ground arith
  detailed-dsts (r ∷ rs) table family {ps} has h =
      step (prefixes net rs) refl (λ qs e. detailed-dsts rs table family has.1 e)
    where
      step :
          (o : Outcome SysError (List Prefix))
          → prefixes net rs ≡ o
          → ((qs : List Prefix)
              → prefixes net rs ≡ ok qs
              → map (λ d. d.dst) (detailed_all net index_name rs table family) ≡ qs)
          → map (λ d. d.dst) (detailed_all net index_name (r ∷ rs) table family) ≡ ps
      step (ok qs) e ih = ground (arith, ih qs e, has.0)
      step (err x) e ih = ground (arith, has.0)
      step panic e ih = ground (arith, has.0)

  family-run :
      (table : ℕ) (family : Family) {routes : List (ListedRoute Ip)}
      → net.route_list family table ≡ some routes
      → (get_routes_for_family net index_name table family
          ≡ detailed_all net index_name routes table family)
        × (get_routes net table family ≡ prefixes net routes)
  unfolding get_routes get_routes_for_family get_detailed_routes
  family-run table family e = (ground arith, ground arith)

  -- Where netlink lists routes that all have a destination and getRoutes takes them, the detailed
  -- routes of the same table have the same destinations in the same order.
  pub get_routes-detailed :
      (table : ℕ) (family : Family) {routes : List (ListedRoute Ip)} {ps : List Prefix}
      → net.route_list family table ≡ some routes
      → All HasDst routes
      → get_routes net table family ≡ ok ps
      → map (λ d. d.dst) (get_routes_for_family net index_name table family) ≡ ps
  get_routes-detailed table family {routes} {ps} e has h =
      let (run, same) = family-run table family e in
      ap (map (λ d. d.dst)) run ∙ detailed-dsts routes table family has (sym same ∙ h)

-- ===== src/RouteManager/Classify/Exact.antt =====
-- What ClassifyRoutes of go/internal/routemanager/manager.go puts under each id.
use mathlib.Core.List.{append_assoc}
use netbird_minimal.Common.{
  String, ◌≡◌, refl, ap, ◌∙◌, Bool, true, false, not, ◌&&◌, ◌||◌, Option, none, some, List, [], ◌∷◌,
  ◌++◌, arith, if◌then◌else◌, str_eq, str_eq_iff, contains, keep, Bool-cases, inl, inr,
}
use netbird_minimal.Common.Dict.{Dict, lookup, insert, lookup-insert}
use netbird_minimal.RouteManager.RouteEnv.{RouteEnv}
use netbird_minimal.RouteManager.Classify.{
  is_route_supported, server_routes, routes_at, client_routes, classify_routes,
}

module _ (env : RouteEnv) (pub_key : String) where
  open env use {Route}

  -- This peer routes the network with one of its routes.
  unfoldable pub is_own : String → List Route → Bool
  is_own id [] = false
  is_own id (r ∷ rs) =
      (str_eq (env.peer r) pub_key && str_eq (env.get_ha_unique_id r) id) || is_own id rs

  -- The last route of this peer with the id, behind an earlier one.
  unfoldable pub last_own : String → List Route → Option Route → Option Route
  last_own id [] o = o
  last_own id (r ∷ rs) o =
      last_own id rs
        (if str_eq (env.peer r) pub_key && str_eq (env.route_id r) id then some r else o)

  -- The supported routes of the network, in their order.
  abbrev pub members : String → List Route → List Route
  members id routes =
      keep (λ r. str_eq (env.get_ha_unique_id r) id && is_route_supported env r) routes

  -- A group, with these routes behind.
  abbrev pub grown : Option (List Route) → List Route → Option (List Route)
  grown o [] = o
  grown o (r ∷ rs) = some ((elim o [ none ↦ [] | some xs ↦ xs ]) ++ (r ∷ rs))

  grown-one :
      (o : Option (List Route)) (r : Route) (rs : List Route)
      → grown (some ((elim o [ none ↦ [] | some xs ↦ xs ]) ++ (r ∷ []))) rs ≡ grown o (r ∷ rs)
  grown-one o r [] = refl
  grown-one o r (x ∷ xs) =
      ap some (append_assoc (elim o [ none ↦ [] | some xs ↦ xs ]) (r ∷ []) (x ∷ xs))

  own-contains :
      (id : String) (routes : List Route) (own : List String) (servers : Dict Route)
      → contains id (server_routes env pub_key routes own servers).0
        ≡ (is_own id routes || contains id own)
  unfolding server_routes is_own contains
  own-contains id [] own servers = refl
  own-contains id (r ∷ rs) own servers = ground (
    arith,
    own-contains id rs (env.get_ha_unique_id r ∷ own) (insert (env.route_id r) r servers),
    own-contains id rs own servers,
    str_eq_iff (env.get_ha_unique_id r) id,
  )

  servers-lookup :
      (id : String) (routes : List Route) (own : List String) (servers : Dict Route)
      → lookup id (server_routes env pub_key routes own servers).1
        ≡ last_own id routes (lookup id servers)
  unfolding server_routes last_own
  servers-lookup id [] own servers = refl
  servers-lookup id (r ∷ rs) own servers = ground (
    arith,
    servers-lookup id rs (env.get_ha_unique_id r ∷ own) (insert (env.route_id r) r servers),
    servers-lookup id rs own servers,
    lookup-insert (env.route_id r) id r servers,
  )

  -- The groups after one round of the second loop.
  abbrev one : List String → Route → Dict (List Route) → Dict (List Route)
  one own r clients =
      let id = env.get_ha_unique_id r in
      if contains id own || not (is_route_supported env r)
      then clients
      else insert id (routes_at env id clients ++ (r ∷ [])) clients

  -- The group of a network behind these routes.
  abbrev after : String → List String → Option (List Route) → List Route → Option (List Route)
  after id own o routes = if contains id own then o else grown o (members id routes)

  one-lookup :
      (id : String) (own : List String) (r : Route) (rs : List Route) (clients : Dict (List Route))
      → after id own (lookup id (one own r clients)) rs ≡ after id own (lookup id clients) (r ∷ rs)
  one-lookup id own r rs clients = elim (Bool-cases (str_eq (env.get_ha_unique_id r) id)) [
    | inr e ↦ ground (
      arith,
      e,
      lookup-insert (env.get_ha_unique_id r) id
          (routes_at env (env.get_ha_unique_id r) clients ++ (r ∷ [])) clients,
    )
    | inl e ↦ same (env.get_ha_unique_id r) ((str_eq_iff (env.get_ha_unique_id r) id).0 e) e
  ]
    where
      same :
          (j : String)
          → j ≡ id
          → str_eq j id ≡ true
          → after id own
              (lookup id (
                if contains j own || not (is_route_supported env r)
                then clients
                else insert j (routes_at env j clients ++ (r ∷ [])) clients))
              rs
            ≡ (if contains id own
                then lookup id clients
                else grown (lookup id clients) (
                    let rest = members id rs in
                    if str_eq j id && is_route_supported env r then r ∷ rest else rest))
      same j q e = ground (
        arith,
        q,
        ap (λ k. contains k own) q,
        ap (λ k. routes_at env k clients) q,
        lookup-insert j id (routes_at env j clients ++ (r ∷ [])) clients,
        grown-one (lookup id clients) r (members id rs),
      )

  -- The second loop.
  clients-lookup :
      (id : String) (own : List String) (routes : List Route) (clients : Dict (List Route))
      → lookup id (client_routes env own routes clients) ≡ after id own (lookup id clients) routes
  unfolding client_routes
  clients-lookup id own [] clients = ground arith
  clients-lookup id own (r ∷ rs) clients =
      clients-lookup id own rs (one own r clients) ∙ one-lookup id own r rs clients

  -- ClassifyRoutes puts under each id of a route the last route of this peer that has it, and under
  -- each network all its supported routes in their order, or nothing where there is none or where this
  -- peer routes the network, with whichever route.
  pub classify_routes_exact :
      (routes : List Route) (id : String)
      → (lookup id (classify_routes env pub_key routes).0 ≡ last_own id routes none)
        × (lookup id (classify_routes env pub_key routes).1
            ≡ (if is_own id routes then none else grown none (members id routes)))
  unfolding classify_routes
  classify_routes_exact routes id =
      let own = (server_routes env pub_key routes [] []).0 in
      let none_yet : lookup {V = List Route} id [] ≡ none = unfold lookup in refl in
      let no_route : lookup {V = Route} id [] ≡ none = unfold lookup in refl in
      (
        servers-lookup id routes [] [] ∙ ap (last_own id routes) no_route,
        ground (
          arith,
          clients-lookup id own routes [],
          none_yet,
          own-contains id routes [] [],
          nothing id,
        ),
      )
    where
      nothing : (id : String) → contains id [] ≡ false
      nothing id = unfold contains in refl

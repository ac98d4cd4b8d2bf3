-- ===== src/RouteManager/Classify/Split.antt =====
-- ClassifyRoutes of go/internal/routemanager/manager.go keeps the two kinds of routes apart.
use mathlib.Core.Path.{subst}
use netbird_minimal.Common.{
  String, ◌≡◌, refl, sym, ap, ◌∙◌, ◌≢◌, Bool, true, false, not, ◌||◌, none, some, List, [], ◌∷◌,
  ◌++◌, arith, if◌then◌else◌, str_eq, str_eq_iff, str_eq_ne, str_eq_self, ◌⊎◌, contains, is_empty,
  All, Bool-cases, inl, inr,
}
use netbird_minimal.Common.Dict.{Dict, lookup, insert}
use netbird_minimal.RouteManager.RouteEnv.{RouteEnv}
use netbird_minimal.RouteManager.Classify.{
  is_route_supported, server_routes, routes_at, client_routes, classify_routes,
}

All-append : {A : Type 0} (P : A → Type 0) (xs ys : List A) → All P xs → All P ys → All P (xs ++ ys)
All-append P [] ys a b = b
All-append P (x ∷ xs) ys a b = (a.0, All-append P xs ys a.1 b)

insert-All :
    {V : Type 0} (P : String × V → Type 0) (k : String) (v : V) (m : Dict V)
    → All P m
    → P (k, v)
    → All P (insert k v m)
unfolding insert
insert-All P k v [] a b = (b, tt)
insert-All {V} P k v ((j, w) ∷ m) a b = split (str_eq j k) refl (insert-All P k v m a.1 b)
  where
    split :
        (q : Bool)
        → str_eq j k ≡ q
        → All P (insert k v m)
        → All P (if q then (j, v) ∷ m else (j, w) ∷ insert k v m)
    split true e rest = (subst (λ i. P (i, v)) (sym ((str_eq_iff j k).0 e)) b, a.1)
    split false e rest = (a.0, rest)

module _ (env : RouteEnv) (pub_key : String) where
  open env use {Route}

  -- A client route of a network: another peer routes it, the platform supports it, and it belongs
  -- to the network.
  abbrev pub IsClientRoute : String → Route → Type 0
  IsClientRoute id r =
      (env.peer r ≢ pub_key) × (is_route_supported env r ≡ true) × (env.get_ha_unique_id r ≡ id)

  abbrev pub IsClientNetwork : String × List Route → Type 0
  IsClientNetwork e = (is_empty e.1 ≡ false) × All (IsClientRoute e.0) e.1

  abbrev pub IsServerRoute : String × Route → Type 0
  IsServerRoute e = (env.peer e.1 ≡ pub_key) × (env.route_id e.1 ≡ e.0)

  -- One round of the first loop.
  server-cases :
      (r : Route) (rs : List Route) (own : List String) (servers : Dict Route)
      → ((env.peer r ≡ pub_key)
          × (server_routes env pub_key (r ∷ rs) own servers
              ≡ server_routes env pub_key rs
                  (env.get_ha_unique_id r ∷ own)
                  (insert (env.route_id r) r servers)))
        ⊎ ((env.peer r ≢ pub_key)
            × (server_routes env pub_key (r ∷ rs) own servers
                ≡ server_routes env pub_key rs own servers))
  unfolding server_routes
  server-cases r rs own servers = elim (Bool-cases (str_eq (env.peer r) pub_key)) [
    | inl e ↦ inl ((str_eq_iff (env.peer r) pub_key).0 e, ground arith)
    | inr e ↦ inr (str_eq_ne e, ground arith)
  ]

  servers-IsServerRoute :
      (routes : List Route) (own : List String) (servers : Dict Route)
      → All IsServerRoute servers
      → All IsServerRoute (server_routes env pub_key routes own servers).1
  servers-IsServerRoute [] own servers h = unfold server_routes in h
  servers-IsServerRoute (r ∷ rs) own servers h = elim (server-cases r rs own servers) [
    | inl (mine, e) ↦
        subst (λ x. All IsServerRoute (x.1)) (sym e)
          (servers-IsServerRoute rs (env.get_ha_unique_id r ∷ own)
            (insert (env.route_id r) r servers)
            (insert-All IsServerRoute (env.route_id r) r servers h (mine, refl)))
    | inr (other, e) ↦
        subst (λ x. All IsServerRoute (x.1)) (sym e) (servers-IsServerRoute rs own servers h)
  ]

  -- The networks of the first loop.
  abbrev own_of : List Route → List String → Dict Route → List String
  own_of routes own servers = (server_routes env pub_key routes own servers).0

  own-grows :
      (routes : List Route) (own : List String) (servers : Dict Route) (id : String)
      → contains id own ≡ true
      → contains id (own_of routes own servers) ≡ true
  unfolding contains
  own-grows [] own servers id h = unfold server_routes in h
  own-grows (r ∷ rs) own servers id h = elim (server-cases r rs own servers) [
    | inl (mine, e) ↦
        ap (λ x. contains id x.0) e
        ∙ own-grows rs (env.get_ha_unique_id r ∷ own) (insert (env.route_id r) r servers) id
            (ground (arith, h))
    | inr (other, e) ↦ ap (λ x. contains id x.0) e ∙ own-grows rs own servers id h
  ]

  contains_first : (id : String) (own : List String) → contains id (id ∷ own) ≡ true
  unfolding contains
  contains_first id own = ground (arith, str_eq_self id)

  -- A route of this peer belongs to one of these networks.
  abbrev IsOwn : List String → Route → Type 0
  IsOwn own r = env.peer r ≡ pub_key → contains (env.get_ha_unique_id r) own ≡ true

  IsOwn-complete :
      (routes : List Route) (own : List String) (servers : Dict Route)
      → All (IsOwn (own_of routes own servers)) routes
  IsOwn-complete [] own servers = tt
  IsOwn-complete (r ∷ rs) own servers = elim (server-cases r rs own servers) [
    | inl (mine, e) ↦
        subst (λ x. All (IsOwn x.0) (r ∷ rs)) (sym e)
          (
            λ m.
                own-grows rs (env.get_ha_unique_id r ∷ own) (insert (env.route_id r) r servers)
                  (env.get_ha_unique_id r) (contains_first (env.get_ha_unique_id r) own),
            IsOwn-complete rs (env.get_ha_unique_id r ∷ own) (insert (env.route_id r) r servers),
          )
    | inr (other, e) ↦
        subst (λ x. All (IsOwn x.0) (r ∷ rs)) (sym e)
          (λ m. absurd (other m), IsOwn-complete rs own servers)
  ]

  routes_at-IsClientRoute :
      (id : String) (clients : Dict (List Route))
      → All IsClientNetwork clients
      → All (IsClientRoute id) (routes_at env id clients)
  unfolding lookup
  routes_at-IsClientRoute id [] h = tt
  routes_at-IsClientRoute id ((j, rs) ∷ m) h =
      split (str_eq j id) refl (routes_at-IsClientRoute id m h.1)
    where
      split :
          (q : Bool)
          → str_eq j id ≡ q
          → All (IsClientRoute id) (routes_at env id m)
          → All
              (IsClientRoute id)
              (elim (if q then some rs else lookup id m) [ none ↦ [] | some x ↦ x ])
      split true e rest = subst (λ i. All (IsClientRoute i) rs) ((str_eq_iff j id).0 e) h.0.1
      split false e rest = rest

  append_one-filled : (rs : List Route) (r : Route) → is_empty (rs ++ (r ∷ [])) ≡ false
  append_one-filled [] r = refl
  append_one-filled (x ∷ xs) r = refl

  client_routes-IsClientNetwork :
      (own : List String) (routes : List Route) (clients : Dict (List Route))
      → All (IsOwn own) routes
      → All IsClientNetwork clients
      → All IsClientNetwork (client_routes env own routes clients)
  unfolding client_routes
  client_routes-IsClientNetwork own [] clients o h = h
  client_routes-IsClientNetwork own (r ∷ rs) clients o h =
      client_routes-IsClientNetwork own rs _ o.1
        (split (contains (env.get_ha_unique_id r) own) refl (is_route_supported env r) refl)
    where
      split :
          (q : Bool)
          → contains (env.get_ha_unique_id r) own ≡ q
          → (t : Bool) → is_route_supported env r ≡ t
          → All IsClientNetwork (
              if q || not t
              then clients
              else insert
                  (env.get_ha_unique_id r)
                  (routes_at env (env.get_ha_unique_id r) clients ++ (r ∷ []))
                  clients)
      split true e t f = h
      split false e false f = h
      split false e true f = insert-All IsClientNetwork (env.get_ha_unique_id r) _ clients h (
        append_one-filled (routes_at env (env.get_ha_unique_id r) clients) r,
        All-append (IsClientRoute (env.get_ha_unique_id r)) _ (r ∷ [])
            (routes_at-IsClientRoute (env.get_ha_unique_id r) clients h)
            ((λ m. ground (arith, o.0 m, e), f, refl), tt),
      )

  -- ClassifyRoutes returns server routes that this peer routes, each under its own id, and networks
  -- of client routes that are never empty, whose routes another peer routes, are supported and
  -- belong to the network they are under.
  pub classify_routes_split :
      (routes : List Route)
      → All IsServerRoute (classify_routes env pub_key routes).0
        × All IsClientNetwork (classify_routes env pub_key routes).1
  unfolding classify_routes
  classify_routes_split routes = (
    servers-IsServerRoute routes [] [] tt,
    client_routes-IsClientNetwork (own_of routes [] []) routes [] (IsOwn-complete routes [] []) tt,
  )

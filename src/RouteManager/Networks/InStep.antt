-- ===== src/RouteManager/Networks/InStep.antt =====
-- Handlers and watchers stay in step: UpdateRoutes and TriggerSelection of
-- go/internal/routemanager/manager.go, and whole runs of them.
use mathlib.Core.Path.{subst}
use netbird_minimal.Common.{
  ℕ, String, ◌≡◌, refl, sym, ap, ◌∙◌, Bool, true, false, not, ◌&&◌, ◌||◌, List, [], ◌∷◌, ◌++◌,
  arith, if◌then◌else◌, is_some, is_empty, str_eq, str_eq_iff, All, Bool-cases, inl, inr,
}
use netbird_minimal.Common.Dict.{Dict, lookup, IsMap}
use netbird_minimal.Common.Outcome.{Outcome, ok, err, panic}
use netbird_minimal.RouteManager.RouteEnv.{RouteEnv}
use netbird_minimal.RouteManager.ExitNodes.{update_route_selector_from_management}
use netbird_minimal.RouteManager.Networks.{
  UpdateError, server_failed, Manager, update_system_routes, stop_obsolete_clients, update_client,
  trigger_client, for_networks, update_client_networks, update_clients, update_servers,
  update_routes, trigger_selection,
}
use netbird_minimal.RouteManager.Networks.Obsolete.{
  HasRoutes, Starts, stop_clients-left, stop_clients-active, update_client-Starts,
  trigger_client-Starts, for_networks-watched,
}
use netbird_minimal.RouteManager.Networks.Handlers.{adds_failed, asks, update_system_routes-Handled}

adds_failed-server :
    (k : String) (es : List UpdateError)
    → adds_failed k (es ++ (server_failed ∷ [])) ≡ adds_failed k es
unfolding adds_failed
adds_failed-server k [] = refl
adds_failed-server k (UpdateError.remove_failed id ∷ es) = adds_failed-server k es
adds_failed-server k (UpdateError.add_failed id ∷ es) =
    ap (λ b. str_eq id k || b) (adds_failed-server k es)
adds_failed-server k (UpdateError.server_failed ∷ es) = adds_failed-server k es

module _ (env : RouteEnv) where
  open env use {Route, Selector}

  asks-HasRoutes :
      (k : String) (m : Dict (List Route))
      → All (HasRoutes env) m
      → asks env k m ≡ is_some (lookup k m)
  unfolding asks lookup
  asks-HasRoutes k [] h = refl
  asks-HasRoutes k ((id, routes) ∷ m) h =
      ground (arith, h.0, asks-HasRoutes k m h.1, str_eq_iff id k)

  -- Exactly the networks with a handler have a watcher, and none has two handlers.
  pub record InStep (s : Manager env) : Type 0 where
    pub map : IsMap s.active_routes
    pub same :
        (k : String) → is_some (lookup k s.client_networks) ≡ is_some (lookup k s.active_routes)

  -- After an update to these networks a network has a watcher exactly if it is listed and had one or
  -- its route was added without an error.
  pub record Follows (networks : Dict (List Route)) (s t : Manager env) (es : List UpdateError)
      : Type 0 where
    pub in_step : InStep t
    pub watched :
        (k : String)
        → is_some (lookup k t.client_networks) ≡ (
            is_some (lookup k networks)
            && (is_some (lookup k s.client_networks) || not (adds_failed k es)))

  abbrev Loop : Type 0
  Loop = String → List Route → Manager env → Outcome UpdateError (Unit {0}) × Manager env

  -- updateSystemRoutes, the stop of obsolete watchers, and a loop that starts watchers.
  loop-Follows :
      (f : Loop)
      → ((k id : String) (routes : List Route) (s : Manager env)
          → is_empty routes ≡ false
          → Starts env id s k (f id routes s))
      → (networks : Dict (List Route)) (s : Manager env) → All (HasRoutes env) networks
      → InStep s
      → let (es, s1) = update_system_routes env networks s in
        let r = for_networks env f networks (stop_obsolete_clients env networks s1) in
        (r.0 ≡ ok tt) × Follows networks s r.1 es
  unfolding stop_obsolete_clients
  loop-Follows f law networks s h i =
      let up = update_system_routes env networks s in
      let s1 = up.1 in
      let u = update_system_routes-Handled env networks s i.map in
      let s2 = stop_obsolete_clients env networks s1 in
      let active = stop_clients-active env networks s1.client_networks s1 in
      let run : (k : String) → _ = λ k. for_networks-watched env f k (law k) networks s2 h in
      let left : (k : String) → _ = λ k. stop_clients-left env networks s1.client_networks s1 k in
      let kept = (run "").1 ∙ active in
      let was : (k : String)
          → is_some (lookup k s1.client_networks) ≡ is_some (lookup k s.client_networks) =
        λ k. ap (λ m. is_some (lookup k m)) u.watchers in
      (
        (run "").0,
        record {
          in_step = record {
            map = subst IsMap (sym kept) u.map;
            same = λ k.
                (run k).2
                ∙ ground (
                  arith,
                  left k,
                  was k,
                  i.same k,
                  u.active k,
                  asks-HasRoutes k networks h,
                  ap (lookup k) active,
                )
                ∙ sym (ap (λ m. is_some (lookup k m)) kept);
          };
          watched = λ k.
              (run k).2
              ∙ ground (
                arith,
                left k,
                was k,
                i.same k,
                u.active k,
                asks-HasRoutes k networks h,
                ap (lookup k) active,
              );
        },
      )

  -- The selector only leaves networks out.
  pub record RouteLaws : Type 0 where
    pub filter_lem :
        (sel : Selector) (m : Dict (List Route))
        → All (HasRoutes env) m
        → All (HasRoutes env) (env.filter_selected_exit_nodes sel m)

  -- The networks that an update takes over.
  abbrev pub selected : Dict (List Route) → Manager env → Dict (List Route)
  selected routes s =
      env.filter_selected_exit_nodes (update_route_selector_from_management env routes s.selector)
        routes

  -- An update that ended with these errors and followed the networks.
  abbrev Ended :
      Dict (List Route)
      → Manager env
      → Outcome (List UpdateError) (List UpdateError) × Manager env
      → Type 0
  Ended networks s r = (es : List UpdateError) × (r.0 ≡ ok es) × Follows networks s r.1 es

  module _ (laws : RouteLaws) where
    update_clients-Follows :
        (serial : ℕ) (routes : Dict (List Route)) (s : Manager env)
        → All (HasRoutes env) routes
        → InStep s
        → Ended (selected routes s) s (update_clients env serial routes s)
    unfolding update_clients update_client_networks
    update_clients-Follows serial routes s h i =
        let selector = update_route_selector_from_management env routes s.selector in
        let networks = selected routes s in
        let s0 : Manager env = record s { selector = selector } in
        let up = update_system_routes env networks s0 in
        let (o, f) =
          loop-Follows (update_client env serial)
            (λ k id rs t n. update_client-Starts env serial id rs t k n) networks s0
            (laws.filter_lem selector routes h) (record { map = i.map; same = i.same }) in
        finish networks up.0 (update_client_networks env serial networks up.1) o
          (record { in_step = f.in_step; watched = f.watched })
      where
        finish :
            (networks : Dict (List Route)) (es : List UpdateError)
            (r : Outcome UpdateError (Unit {0}) × Manager env)
            → r.0 ≡ ok tt
            → Follows networks s r.1 es
            → Ended networks s (
                let out : Outcome (List UpdateError) (List UpdateError) × Manager env = elim r.0 [
                  | ok u ↦ (ok es, record r.1 { world = env.on_new_routes networks r.1.world })
                  | err e ↦ (err (e ∷ []), r.1)
                  | panic ↦ (panic, r.1)
                ] in
                out)
        finish networks es (ok u, t) o f = (
          es,
          refl,
          record {
            in_step = record { map = f.in_step.map; same = f.in_step.same };
            watched = f.watched;
          },
        )
        finish networks es (err e, t) o f = absurd (ground arith)
        finish networks es (panic, t) o f = absurd (ground arith)

    -- The end of UpdateRoutes leaves handlers and watchers alone.
    servers-Follows :
        (servers : Dict Route) (networks routes : Dict (List Route)) (dns : Bool)
        (s t : Manager env) (es : List UpdateError)
        → Follows networks s t es
        → Follows networks s
            (update_servers env servers routes dns es t).1
            (update_servers env servers routes dns es t).0
    unfolding update_servers
    servers-Follows servers networks routes dns s t es f =
        split t.has_server_router (env.update_server_routes servers dns t.world).0
      where
        same : Manager env → Type 0
        same u = (u.active_routes ≡ t.active_routes) × (u.client_networks ≡ t.client_networks)

        split :
            (b failed : Bool)
            → let w = (env.update_server_routes servers dns t.world).1 in
              let out : List UpdateError × Manager env =
                if not b then (es, record t { client_routes = routes }) else (
                  if failed then es ++ (server_failed ∷ []) else es,
                  record t { client_routes = routes; world = w },
                ) in
              Follows networks s out.1 out.0
        split false failed = record {
          in_step = record { map = f.in_step.map; same = f.in_step.same };
          watched = f.watched;
        }
        split true false = record {
          in_step = record { map = f.in_step.map; same = f.in_step.same };
          watched = f.watched;
        }
        split true true = record {
          in_step = record { map = f.in_step.map; same = f.in_step.same };
          watched = λ k. f.watched k ∙ ground (arith, adds_failed-server k es);
        }

    -- UpdateRoutes of networks that list routes does not panic. Where the context is open and client
    -- routes are not disabled, a network has a watcher afterwards exactly if the selector lets it
    -- through and it had a watcher or its route was added without an error, and again exactly the
    -- networks with a handler have a watcher.
    pub update_routes-Follows :
        (serial : ℕ) (servers : Dict Route) (routes : Dict (List Route)) (dns : Bool)
        (s : Manager env)
        → s.disable_client_routes ≡ false
        → All (HasRoutes env) routes
        → InStep s
        → Ended (selected routes s) s (update_routes env false serial servers routes dns s)
    unfolding update_routes
    update_routes-Follows serial servers routes dns s d h i =
        let s1 : Manager env = record s { use_new_dns_route = dns } in
        let (es, o, f) =
          update_clients-Follows serial routes s1 h (record { map = i.map; same = i.same }) in
        let out =
          update_servers env servers routes dns es (update_clients env serial routes s1).1 in
        let g =
          servers-Follows servers (selected routes s) routes dns s
            (update_clients env serial routes s1).1 es
            (record { in_step = f.in_step; watched = f.watched }) in
        (
          out.0,
          ground (arith, d, o),
          subst (λ t. Follows (selected routes s) s t out.0) (ground (arith, d, o)) g,
        )

    -- TriggerSelection does the same to the networks that it is given, without a serial; its errors
    -- are only logged.
    trigger_selection-InStep :
        (routes : Dict (List Route)) (s : Manager env)
        → All (HasRoutes env) routes
        → InStep s
        → ((trigger_selection env routes s).0 ≡ ok tt) × InStep (trigger_selection env routes s).1
    unfolding trigger_selection
    trigger_selection-InStep routes s h i =
        let networks = env.filter_selected_exit_nodes s.selector routes in
        let s0 : Manager env = record s { world = env.on_new_routes networks s.world } in
        let up = update_system_routes env networks s0 in
        let (o, f) =
          loop-Follows (trigger_client env) (λ k id rs t n. trigger_client-Starts env id rs t k n)
            networks s0 (laws.filter_lem s.selector routes h)
            (record { map = i.map; same = i.same }) in
        finish
          (for_networks env (trigger_client env) networks (stop_obsolete_clients env networks up.1))
          o f.in_step
      where
        finish :
            (r : Outcome UpdateError (Unit {0}) × Manager env)
            → r.0 ≡ ok tt
            → InStep r.1
            → let out : Outcome UpdateError (Unit {0}) × Manager env = elim r.0 [
              | ok u ↦
                  (ok tt, record r.1 { world = env.update_selector_state r.1.selector r.1.world })
              | err e ↦ (err e, r.1)
              | panic ↦ (panic, r.1)
            ] in
              (out.0 ≡ ok tt) × InStep out.1
        finish (ok u, t) o j = (refl, record { map = j.map; same = j.same })
        finish (err e, t) o j = absurd (ground arith)
        finish (panic, t) o j = absurd (ground arith)

    update_routes-InStep :
        (closed : Bool) (serial : ℕ) (servers : Dict Route) (routes : Dict (List Route))
        (dns : Bool) (s : Manager env)
        → All (HasRoutes env) routes
        → InStep s
        → InStep (update_routes env closed serial servers routes dns s).1
    update_routes-InStep true serial servers routes dns s h i = unfold update_routes in i
    update_routes-InStep false serial servers routes dns s h i =
        elim (Bool-cases s.disable_client_routes) [
          | inr on ↦ (update_routes-Follows serial servers routes dns s on h i).2.in_step
          | inl off ↦
              subst InStep (sym (disabled off))
                (left (env.update_server_routes servers dns s.world) s.has_server_router)
        ]
      where
        left :
            (r : Bool × env.World) (b : Bool)
            → InStep (
                let t : Manager env = record s {
                  use_new_dns_route = dns;
                  client_routes = routes;
                } in
                if not b then t else record t { world = r.1 })
        left r true = record { map = i.map; same = i.same }
        left r false = record { map = i.map; same = i.same }

        disabled :
            s.disable_client_routes ≡ true
            → (update_routes env false serial servers routes dns s).1 ≡ (
                let t : Manager env = record s {
                  use_new_dns_route = dns;
                  client_routes = routes;
                } in
                if not s.has_server_router
                then t
                else record t { world = (env.update_server_routes servers dns s.world).1 })
        disabled off = unfold update_routes in unfold update_servers in ground arith

    -- A step of a run: an update of the management server or a selection of the user.
    pub data Step : Manager env → Manager env → Type 0 where
      update :
          (closed : Bool) (serial : ℕ) (servers : Dict Route) (routes : Dict (List Route))
          (dns : Bool) (s t : Manager env)
          → All (HasRoutes env) routes
          → t ≡ (update_routes env closed serial servers routes dns s).1
          → Step s t
      select :
          (routes : Dict (List Route)) (s t : Manager env)
          → All (HasRoutes env) routes
          → t ≡ (trigger_selection env routes s).1
          → Step s t

    pub data Reach (s : Manager env) : Manager env → Type 0 where
      here : Reach s s
      next : {t u : Manager env} → Reach s t → Step t u → Reach s u

    Step-InStep : {s t : Manager env} → Step s t → InStep s → InStep t
    Step-InStep (update closed serial servers routes dns s t h q) i =
        subst InStep (sym q) (update_routes-InStep closed serial servers routes dns s h i)
    Step-InStep (select routes s t h q) i =
        subst InStep (sym q) (trigger_selection-InStep routes s h i).1

    -- In every run of updates and selections of networks that list routes, whichever calls of the
    -- route handlers fail, exactly the networks with a handler have a watcher.
    pub Reach-InStep : {s t : Manager env} → InStep s → Reach s t → InStep t
    Reach-InStep i here = i
    Reach-InStep i (next r st) = Step-InStep st (Reach-InStep i r)

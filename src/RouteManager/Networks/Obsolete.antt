-- ===== src/RouteManager/Networks/Obsolete.antt =====
-- Which networks have a watcher after updateClientNetworks of
-- go/internal/routemanager/manager.go.
use netbird_minimal.Common.{
  ℕ, String, ◌≡◌, refl, ◌∙◌, Bool, true, false, not, ◌&&◌, ◌||◌, none, some, List, [], ◌∷◌, arith,
  if◌then◌else◌, is_some, is_empty, str_eq, str_eq_iff, All, Option,
}
use netbird_minimal.Common.Dict.{Dict, lookup, erase, lookup-insert, lookup-erase}
use netbird_minimal.Common.Outcome.{Outcome, ok}
use netbird_minimal.RouteManager.RouteEnv.{RouteEnv}
use netbird_minimal.RouteManager.Networks.{
  UpdateError, Manager, stop_clients, stop_obsolete_clients, start_client, send_to, update_client,
  trigger_client, for_networks, update_client_networks,
}

module _ (env : RouteEnv) where
  open env use {Route, Watcher, Handler}

  -- A network has routes.
  abbrev pub HasRoutes : String × List Route → Type 0
  HasRoutes e = is_empty e.1 ≡ false

  pub stop_clients-left :
      (networks : Dict (List Route)) (m : Dict Watcher) (s : Manager env) (k : String)
      → is_some (lookup k (stop_clients env networks m s).client_networks) ≡ (
          is_some (lookup k s.client_networks)
          && (is_some (lookup k networks) || not (is_some (lookup k m))))
  unfolding stop_clients lookup
  stop_clients-left networks [] s k = ground arith
  stop_clients-left networks ((id, c) ∷ m) s k =
      stop_clients-left networks m _ k ∙ split (is_some (lookup id networks)) refl
    where
      split :
          (b : Bool)
          → is_some (lookup id networks) ≡ b
          → (is_some (
                lookup k
                  (if b then s else record s {
                    client_networks = erase id s.client_networks;
                    world = env.stop_watcher c s.world;
                  }).client_networks)
              && (is_some (lookup k networks) || not (is_some (lookup k m))))
            ≡ (is_some (lookup k s.client_networks)
                && (is_some (lookup k networks) || not (is_some (lookup k ((id, c) ∷ m)))))
      split true e = ground (arith, str_eq_iff id k)
      split false e = ground (arith, str_eq_iff id k, lookup-erase id k s.client_networks)

  pub stop_clients-active :
      (networks : Dict (List Route)) (m : Dict Watcher) (s : Manager env)
      → (stop_clients env networks m s).active_routes ≡ s.active_routes
  unfolding stop_clients
  stop_clients-active networks [] s = refl
  stop_clients-active networks ((id, c) ∷ m) s =
      stop_clients-active networks m _ ∙ split (is_some (lookup id networks))
    where
      split :
          (b : Bool)
          → (if b then s else record s {
            client_networks = erase id s.client_networks;
            world = env.stop_watcher c s.world;
          }).active_routes
            ≡ s.active_routes
      split true = refl
      split false = refl

  -- What one round of a loop over the networks does to the watchers: it does not panic, keeps the
  -- handlers, and starts a watcher for a network with a handler and none yet.
  pub record Starts (id : String) (s : Manager env) (k : String)
      (r : Outcome UpdateError (Unit {0}) × Manager env) : Type 0 where
    pub ended : r.0 ≡ ok tt
    pub active : r.1.active_routes ≡ s.active_routes
    pub watched : is_some (lookup k r.1.client_networks) ≡ (
        is_some (lookup k s.client_networks) || (str_eq id k && is_some (lookup k s.active_routes)))

  -- A watcher is started behind a lookup of none.
  start_client-Starts :
      (serial : ℕ) (id : String) (routes : List Route) (h : Handler) (s : Manager env) (k : String)
      → is_empty routes ≡ false
      → lookup id s.client_networks ≡ none
      → lookup id s.active_routes ≡ some h
      → Starts id s k (send_to env serial routes (start_client env id routes h s))
  unfolding start_client
  start_client-Starts serial id [] h s k n e a = absurd (ground arith)
  start_client-Starts serial id (r ∷ rs) h s k n e a = record {
    ended = refl;
    active = refl;
    watched = ground (
      arith,
      a,
      str_eq_iff id k,
      lookup-insert id k (env.new_watcher r h s.world) s.client_networks,
    );
  }

  pub update_client-Starts :
      (serial : ℕ) (id : String) (routes : List Route) (s : Manager env) (k : String)
      → is_empty routes ≡ false
      → Starts id s k (update_client env serial id routes s)
  unfolding update_client
  update_client-Starts serial id routes s k h =
      split (lookup id s.client_networks) refl (lookup id s.active_routes) refl
    where
      split :
          (c : Option Watcher)
          → lookup id s.client_networks ≡ c
          → (a : Option Handler) → lookup id s.active_routes ≡ a
          → Starts id s k (
              let r : Outcome UpdateError (Unit {0}) × Manager env = elim c [
                | some w ↦ send_to env serial routes (ok w, s)
                | none ↦ elim a [
                  | none ↦ (ok tt, s)
                  | some h' ↦ send_to env serial routes (start_client env id routes h' s)
                ]
              ] in
              r)
      split (some w) e a q = record {
        ended = refl;
        active = refl;
        watched = ground (arith, e, str_eq_iff id k);
      }
      split none e none q = record {
        ended = refl;
        active = refl;
        watched = ground (arith, q, str_eq_iff id k);
      }
      split none e (some h') q = start_client-Starts serial id routes h' s k h e q

  pub trigger_client-Starts :
      (id : String) (routes : List Route) (s : Manager env) (k : String)
      → is_empty routes ≡ false
      → Starts id s k (trigger_client env id routes s)
  unfolding trigger_client
  trigger_client-Starts id routes s k h =
      split (lookup id s.client_networks) refl (lookup id s.active_routes) refl
    where
      split :
          (c : Option Watcher)
          → lookup id s.client_networks ≡ c
          → (a : Option Handler) → lookup id s.active_routes ≡ a
          → Starts id s k (
              let r : Outcome UpdateError (Unit {0}) × Manager env = elim c [
                | some w ↦ (ok tt, s)
                | none ↦ elim a [
                  | none ↦ (ok tt, s)
                  | some h' ↦ send_to env 0 routes (start_client env id routes h' s)
                ]
              ] in
              r)
      split (some w) e a q = record {
        ended = refl;
        active = refl;
        watched = ground (arith, e, str_eq_iff id k);
      }
      split none e none q = record {
        ended = refl;
        active = refl;
        watched = ground (arith, q, str_eq_iff id k);
      }
      split none e (some h') q = start_client-Starts 0 id routes h' s k h e q

  pub for_networks-watched :
      (f : String → List Route → Manager env → Outcome UpdateError (Unit {0}) × Manager env)
      (k : String)
      → ((id : String) (routes : List Route) (s : Manager env)
          → is_empty routes ≡ false
          → Starts id s k (f id routes s))
      → (m : Dict (List Route)) (s : Manager env) → All HasRoutes m
      → ((for_networks env f m s).0 ≡ ok tt)
        × ((for_networks env f m s).1.active_routes ≡ s.active_routes)
        × (is_some (lookup k (for_networks env f m s).1.client_networks) ≡ (
            is_some (lookup k s.client_networks)
            || (is_some (lookup k m) && is_some (lookup k s.active_routes))))
  unfolding for_networks lookup
  for_networks-watched f k law [] s h = (refl, refl, ground arith)
  for_networks-watched f k law ((id, routes) ∷ m) s h =
      let r = law id routes s h.0 in
      let (d, a, e) = for_networks-watched f k law m (f id routes s).1 h.1 in
      (
        ground (arith, r.ended, d),
        ground (arith, r.ended, r.active, a),
        ground (arith, r.ended, r.active, r.watched, e, str_eq_iff id k),
      )

  -- updateClientNetworks of networks that have routes does not panic, and afterwards there is a
  -- watcher exactly for the networks that are listed and had a watcher or an active handler.
  pub update_client_networks-exact :
      (serial : ℕ) (networks : Dict (List Route)) (s : Manager env) (k : String)
      → All HasRoutes networks
      → ((update_client_networks env serial networks s).0 ≡ ok tt)
        × (is_some (lookup k (update_client_networks env serial networks s).1.client_networks) ≡ (
            is_some (lookup k networks)
            && (is_some (lookup k s.client_networks) || is_some (lookup k s.active_routes))))
  unfolding update_client_networks stop_obsolete_clients
  update_client_networks-exact serial networks s k h =
      let s1 = stop_obsolete_clients env networks s in
      let (a, act, b) =
        for_networks-watched (update_client env serial) k
          (λ id rs t n. update_client-Starts serial id rs t k n) networks s1 h in
      let left = stop_clients-left networks s.client_networks s k in
      let same = stop_clients-active networks s.client_networks s in
      (a, ground (arith, b, left, same))

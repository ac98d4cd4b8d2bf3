-- ===== src/RouteManager/Networks/Handlers.antt =====
-- Which networks have a handler after updateSystemRoutes of go/internal/routemanager/manager.go.
use netbird_minimal.Common.{
  String, ◌≡◌, refl, sym, ◌∙◌, Bool, true, false, not, ◌&&◌, ◌||◌, none, List, [], ◌∷◌, ◌++◌, arith,
  if◌then◌else◌, is_some, is_empty, str_eq, str_eq_iff,
}
use netbird_minimal.Common.Dict.{
  Dict, lookup, insert, erase, lookup-insert, lookup-erase, contains-keys, IsMap, insert-IsMap,
  erase-IsMap,
}
use netbird_minimal.RouteManager.RouteEnv.{RouteEnv}
use netbird_minimal.RouteManager.Networks.{
  UpdateError, remove_failed, add_failed, server_failed, Manager, wanted, compare_active,
  remove_handlers, add_handlers, update_system_routes,
}

-- An error says that the route was not added.
unfoldable pub adds_failed : String → List UpdateError → Bool
adds_failed k [] = false
adds_failed k (add_failed id ∷ es) = str_eq id k || adds_failed k es
adds_failed k (_ ∷ es) = adds_failed k es

adds_failed-append :
    (k : String) (xs ys : List UpdateError)
    → adds_failed k (xs ++ ys) ≡ (adds_failed k xs || adds_failed k ys)
unfolding adds_failed
adds_failed-append k [] ys = refl
adds_failed-append k (remove_failed id ∷ es) ys = adds_failed-append k es ys
adds_failed-append k (add_failed id ∷ es) ys = ground (arith, adds_failed-append k es ys)
adds_failed-append k (server_failed ∷ es) ys = adds_failed-append k es ys

module _ (env : RouteEnv) where
  open env use {Route, Handler}

  -- The networks list routes under the id.
  unfoldable pub asks : String → Dict (List Route) → Bool
  asks k [] = false
  asks k ((id, routes) ∷ m) = (str_eq id k && not (is_empty routes)) || asks k m

  wanted-lookup :
      (k : String) (m : Dict (List Route)) (t : Dict Route)
      → is_some (lookup k (wanted env m t)) ≡ (asks k m || is_some (lookup k t))
  unfolding wanted asks
  wanted-lookup k [] t = refl
  wanted-lookup k ((id, []) ∷ m) t = wanted-lookup k m t ∙ ground arith
  wanted-lookup k ((id, r ∷ rs) ∷ m) t =
      wanted-lookup k m (insert id r t) ∙ ground (arith, lookup-insert id k r t, str_eq_iff id k)

  wanted-IsMap : (m : Dict (List Route)) (t : Dict Route) → IsMap t → IsMap (wanted env m t)
  unfolding wanted
  wanted-IsMap [] t h = h
  wanted-IsMap ((id, []) ∷ m) t h = wanted-IsMap m t h
  wanted-IsMap ((id, r ∷ rs) ∷ m) t h = wanted-IsMap m (insert id r t) (insert-IsMap id r t h)

  -- What the comparison leaves to add and to remove.
  record Compared (m : Dict Handler) (add : Dict Route) (gone : Dict Handler)
      (r : Dict Route × Dict Handler) : Type 0 where
    map : IsMap add → IsMap r.0
    added :
        (k : String)
        → is_some (lookup k r.0) ≡ (is_some (lookup k add) && not (is_some (lookup k m)))
    removed :
        (k : String)
        → is_some (lookup k r.1)
          ≡ (is_some (lookup k gone) || (is_some (lookup k m) && not (is_some (lookup k add))))

  compare_active-Compared :
      (m : Dict Handler) (add : Dict Route) (gone : Dict Handler)
      → IsMap m
      → Compared m add gone (compare_active env m add gone)
  unfolding compare_active lookup
  compare_active-Compared [] add gone d = record {
    map = λ h. h;
    added = λ k. ground arith;
    removed = λ k. ground arith;
  }
  compare_active-Compared ((id, h) ∷ m) add gone (n, d) =
      split (is_some (lookup id add)) refl (compare_active-Compared m (erase id add) gone d)
        (compare_active-Compared m add (insert id h gone) d)
    where
      absent : is_some (lookup id m) ≡ false
      absent = sym (contains-keys id m) ∙ n

      split :
          (b : Bool)
          → is_some (lookup id add) ≡ b
          → Compared m (erase id add) gone (compare_active env m (erase id add) gone)
          → Compared m add (insert id h gone) (compare_active env m add (insert id h gone))
          → Compared ((id, h) ∷ m) add gone (
              if b
              then compare_active env m (erase id add) gone
              else compare_active env m add (insert id h gone))
      split true e c c' = record {
        map = λ q. c.map (erase-IsMap id add q);
        added = λ k. c.added k ∙ ground (arith, lookup-erase id k add, str_eq_iff id k);
        removed =
            λ k. c.removed k ∙ ground (arith, lookup-erase id k add, str_eq_iff id k, absent, e);
      }
      split false e c c' = record {
        map = λ q. c'.map q;
        added = λ k. c'.added k ∙ ground (arith, str_eq_iff id k, e);
        removed = λ k. c'.removed k ∙ ground (arith, lookup-insert id k h gone, str_eq_iff id k, e);
      }

  -- What the loop that removes does to the manager.
  record Removes (m : Dict Handler) (s : Manager env) (r : List UpdateError × Manager env)
      : Type 0 where
    left :
        (k : String)
        → lookup k r.1.active_routes
          ≡ (if is_some (lookup k m) then none else lookup k s.active_routes)
    watchers : r.1.client_networks ≡ s.client_networks
    map : IsMap s.active_routes → IsMap r.1.active_routes
    silent : (k : String) → adds_failed k r.0 ≡ false

  remove_handlers-Removes :
      (m : Dict Handler) (s : Manager env) → Removes m s (remove_handlers env m s)
  unfolding remove_handlers lookup adds_failed
  remove_handlers-Removes [] s = record {
    left = λ k. refl;
    watchers = refl;
    map = λ h. h;
    silent = λ k. refl;
  }
  remove_handlers-Removes ((id, h) ∷ m) s =
      let w = env.remove_route h s.world in
      let c =
        remove_handlers-Removes m
          (record s { active_routes = erase id s.active_routes; world = w.1 }) in
      record {
        left = λ k. c.left k ∙ ground (arith, lookup-erase id k s.active_routes, str_eq_iff id k);
        watchers = c.watchers;
        map = λ q. c.map (erase-IsMap id s.active_routes q);
        silent = λ k. ground (arith, c.silent k);
      }

  -- What the loop that adds does to the manager.
  record Adds (m : Dict Route) (s : Manager env) (r : List UpdateError × Manager env) : Type 0 where
    active :
        (k : String)
        → is_some (lookup k r.1.active_routes) ≡ (
            is_some (lookup k s.active_routes) || (is_some (lookup k m) && not (adds_failed k r.0)))
    kept :
        (k : String)
        → is_some (lookup k m) ≡ false
        → lookup k r.1.active_routes ≡ lookup k s.active_routes
    watchers : r.1.client_networks ≡ s.client_networks
    map : IsMap s.active_routes → IsMap r.1.active_routes
    listed : (k : String) → adds_failed k r.0 ≡ true → is_some (lookup k m) ≡ true

  add_handlers-Adds : (m : Dict Route) (s : Manager env) → IsMap m → Adds m s (add_handlers env m s)
  unfolding add_handlers lookup adds_failed
  add_handlers-Adds [] s d = record {
    active = λ k. ground arith;
    kept = λ k q. refl;
    watchers = refl;
    map = λ h. h;
    listed = λ k q. absurd (ground arith);
  }
  add_handlers-Adds ((id, x) ∷ m) s (n, d) =
      let h = env.handler_from_route x s.use_new_dns_route s.world in
      split (env.add_route h s.world).0
        (add_handlers-Adds m (record s { world = (env.add_route h s.world).1 }) d)
        (add_handlers-Adds m
          (record s {
            active_routes = insert id h s.active_routes;
            world = (env.add_route h s.world).1;
          })
          d)
    where
      h : Handler
      h = env.handler_from_route x s.use_new_dns_route s.world

      after : Bool → Manager env
      after failed =
          let w = (env.add_route h s.world).1 in
          if failed
          then record s { world = w }
          else record s { active_routes = insert id h s.active_routes; world = w }

      result : Bool → List UpdateError × Manager env
      result failed =
          let (es, s') = add_handlers env m (after failed) in
          (if failed then add_failed id ∷ es else es, s')

      absent : is_some (lookup id m) ≡ false
      absent = sym (contains-keys id m) ∙ n

      split :
          (b : Bool)
          → Adds m (after true) (add_handlers env m (after true))
          → Adds m (after false) (add_handlers env m (after false))
          → Adds ((id, x) ∷ m) s (result b)
      split true c c' = record {
        active = λ k. c.active k ∙ ground (arith, c.listed k, str_eq_iff id k, absent);
        kept = λ k q. c.kept k (ground arith);
        watchers = c.watchers;
        map = c.map;
        listed = λ k q. ground (arith, c.listed k);
      }
      split false c c' = record {
        active = λ k.
            c'.active k
            ∙ ground
                (arith, c'.listed k, lookup-insert id k h s.active_routes, str_eq_iff id k, absent);
        kept = λ k q.
            c'.kept k (ground arith)
            ∙ ground (arith, lookup-insert id k h s.active_routes, str_eq_iff id k);
        watchers = c'.watchers;
        map = λ q. c'.map (insert-IsMap id h s.active_routes q);
        listed = λ k q. ground (arith, c'.listed k);
      }

  -- What updateSystemRoutes does to the manager: a network has a handler afterwards exactly if it
  -- lists routes and had a handler or got one without an error, a handler that was there stays, and
  -- the watchers are left alone.
  pub record Handled (networks : Dict (List Route)) (s : Manager env)
      (r : List UpdateError × Manager env) : Type 0 where
    pub active :
        (k : String)
        → is_some (lookup k r.1.active_routes)
          ≡ (asks k networks && (is_some (lookup k s.active_routes) || not (adds_failed k r.0)))
    pub kept :
        (k : String)
        → is_some (lookup k s.active_routes) ≡ true
        → asks k networks ≡ true
        → lookup k r.1.active_routes ≡ lookup k s.active_routes
    pub watchers : r.1.client_networks ≡ s.client_networks
    pub map : IsMap r.1.active_routes

  pub update_system_routes-Handled :
      (networks : Dict (List Route)) (s : Manager env)
      → IsMap s.active_routes
      → Handled networks s (update_system_routes env networks s)
  unfolding update_system_routes
  update_system_routes-Handled networks s d =
      let want = wanted env networks [] in
      let out = compare_active env s.active_routes want [] in
      let c = compare_active-Compared s.active_routes want [] d in
      let removed = remove_handlers env out.1 s in
      let r = remove_handlers-Removes out.1 s in
      let added = add_handlers env out.0 removed.1 in
      let a = add_handlers-Adds out.0 removed.1 (c.map (wanted-IsMap networks [] tt)) in
      record {
        active = λ k.
            a.active k
            ∙ ground (
              arith,
              r.left k,
              c.added k,
              c.removed k,
              empty k,
              empty_routes k,
              wanted-lookup k networks [],
              adds_failed-append k removed.0 added.0,
              r.silent k,
            );
        kept = λ k p q.
            a.kept k (ground (arith, c.added k))
            ∙ r.left k
            ∙ ground (arith, c.removed k, empty k, empty_routes k, wanted-lookup k networks []);
        watchers = a.watchers ∙ r.watchers;
        map = a.map (r.map d);
      }
    where
      empty : (k : String) → is_some (lookup {V = Handler} k []) ≡ false
      empty k = unfold lookup in refl

      empty_routes : (k : String) → is_some (lookup {V = Route} k []) ≡ false
      empty_routes k = unfold lookup in refl

-- ===== src/RouteManager/Lifecycle/Routing.antt =====
-- The routing of the system after Init and after Stop of go/internal/routemanager/manager.go.
use netbird_minimal.Common.{List, ◌≡◌, refl, Bool, true, false, ◌||◌, arith, if◌then◌else◌}
use mathlib.Core.Path.{subst, sym, ◌∙◌}
use netbird_minimal.RouteManager.Lifecycle.{
  SysOps, LifeEnv, Life, resolve_urls_to_ips, initial_addresses, init, remove_prefix, flushed, stop,
}

-- Flush only calls the function that it is given: what that keeps, the flush keeps.
pub record FlushLaws (env : LifeEnv) : Type 1 where
  pub flush_lem :
      {System : Type 0} (P : System → Type 0) (f : env.Prefix → System → Bool × System)
      → ((p : env.Prefix) (t : System) → P t → P (f p t).1)
      → (w : env.World) (t : System) → P t
      → P (env.flush_routes f (w, t)).1

module _ (env : LifeEnv) (ops : SysOps env.Ip env.Prefix) (laws : FlushLaws env) where
  -- What RemoveVPNRoute keeps.
  abbrev pub IsKept : (ops.System → Type 0) → Type 0
  IsKept P = (p : env.Prefix) (t : ops.System) → P t → P (ops.remove_vpn_route p t).1

  remove_prefix-keeps :
      (P : ops.System → Type 0) (s : Life env ops)
      → IsKept P
      → (p : env.Prefix) (t : ops.System) → P t
      → P (remove_prefix env ops s p t).1
  unfolding remove_prefix
  remove_prefix-keeps P s h p t a = split (env.netstack_enabled || s.disable_client_routes)
    where
      split : (b : Bool) → P (if b then (false, t) else ops.remove_vpn_route p t).1
      split true = a
      split false = h p t a

  noop-keeps :
      (s : Life env ops)
      → (env.netstack_enabled || s.disable_client_routes) ≡ true
      → (p : env.Prefix) (t : ops.System) → (remove_prefix env ops s p t).1 ≡ t
  unfolding remove_prefix
  noop-keeps s h p t = ground (arith, h)

  flushed-keeps :
      (P : ops.System → Type 0) (s : Life env ops) → IsKept P → P s.system → P (flushed env ops s).1
  unfolding flushed
  flushed-keeps P s h a =
      laws.flush_lem P (remove_prefix env ops s) (remove_prefix-keeps P s h)
        (if s.has_server_router
          then env.router_clean_up (env.wait_watchers s.world)
          else env.wait_watchers s.world)
        s.system a

  flushed-noop :
      (s : Life env ops)
      → (env.netstack_enabled || s.disable_client_routes) ≡ true
      → (flushed env ops s).1 ≡ s.system
  unfolding flushed
  flushed-noop s h =
      laws.flush_lem (λ t. t ≡ s.system) (remove_prefix env ops s) (λ p t e. noop-keeps s h p t ∙ e)
        (if s.has_server_router
          then env.router_clean_up (env.wait_watchers s.world)
          else env.wait_watchers s.world)
        s.system refl

  init-installs :
      (s : Life env ops)
      → (env.custom_routing_disabled || s.disable_client_routes) ≡ false
      → (init env ops s).0 ≡ false
      → ops.Installed (init env ops s).1.system
  init-installs s on ok = subst ops.Installed (sym installed) (ops.setup_lem ips cleaned worked)
    where
      ips : List env.Ip
      ips = resolve_urls_to_ips env ops (initial_addresses env ops)

      cleaned : ops.System
      cleaned = (ops.cleanup_routing s.system).1

      installed : (init env ops s).1.system ≡ (ops.setup_routing ips cleaned).1
      installed = unfold init in ground (arith, on)

      worked : (ops.setup_routing ips cleaned).0 ≡ false
      worked = unfold init in ground (arith, on, ok)

  -- Stop behind the flush.
  pub stop-system :
      (s : Life env ops)
      → ((env.custom_routing_disabled || s.disable_client_routes) ≡ false
          → (stop env ops s).system ≡ (ops.cleanup_routing (flushed env ops s).1).1)
        × ((env.custom_routing_disabled || s.disable_client_routes) ≡ true
            → (stop env ops s).system ≡ (flushed env ops s).1)
  unfolding stop
  stop-system s = (λ on. ground (arith, on), λ off. ground (arith, off))

  -- Where custom routing is on and client routes are not disabled, Init without error leaves the
  -- routing installed, and a Stop in whose end CleanupRouting does not fail leaves it removed.
  pub init-stop :
      (s : Life env ops)
      → (env.custom_routing_disabled || s.disable_client_routes) ≡ false
      → ((init env ops s).0 ≡ false → ops.Installed (init env ops s).1.system)
        × ((ops.cleanup_routing (flushed env ops s).1).0 ≡ false
            → ops.Removed (stop env ops s).system)
  init-stop s on = (
    init-installs s on,
    λ ok. subst ops.Removed (sym ((stop-system s).0 on)) (ops.cleanup_lem (flushed env ops s).1 ok),
  )

  -- Where custom routing is off or client routes are disabled, Init succeeds and leaves the system
  -- alone, and all that Stop does to it is to remove VPN routes, none where client routes are disabled
  -- or the netstack is used.
  pub init-stop_off :
      (s : Life env ops)
      → (env.custom_routing_disabled || s.disable_client_routes) ≡ true
      → ((init env ops s).0 ≡ false)
        × ((init env ops s).1.system ≡ s.system)
        × ((P : ops.System → Type 0) → IsKept P → P s.system → P (stop env ops s).system)
        × ((env.netstack_enabled || s.disable_client_routes) ≡ true
            → (stop env ops s).system ≡ s.system)
  init-stop_off s off = (
    unfold init in ground (arith, off),
    unfold init in ground (arith, off),
    λ P h a. subst P (sym ((stop-system s).1 off)) (flushed-keeps P s h a),
    λ n. (stop-system s).1 off ∙ flushed-noop s n,
  )

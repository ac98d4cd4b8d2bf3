-- ===== src/RouteManager/Lifecycle/Linux.antt =====
-- The routing of Linux as the system operations of the route manager, with advanced routing:
-- SetupRouting and CleanupRouting of go/internal/routemanager/systemops/systemops_linux.go.
use netbird_minimal.Common.{
  ℕ, ◌≡◌, refl, ap, true, false, not, ◌||◌, Option, none, List, [], ◌∷◌, arith, All, is_some,
  is_empty,
}
use netbird_minimal.SystemOps.Types.{SysError}
use netbird_minimal.SystemOps.Env.{Netip, Kernel}
use netbird_minimal.SystemOps.Rules.{State, get_setup_rules, setup_routing, cleanup_routing}
use netbird_minimal.SystemOps.Rules.Installed.{
  RuleLaws, IsInstalled, IsAbsent, setup_routing-installs, cleanup_routing-removes,
}
use netbird_minimal.SystemOps.Routes.{remove_vpn_route}
use netbird_minimal.RouteManager.Lifecycle.{SysOps, LifeEnv, Life, init, flushed, stop}
use netbird_minimal.RouteManager.Lifecycle.Routing.{FlushLaws, IsKept, init-stop, init-stop_off}

pub is_some-none : (o : Option SysError) → is_some o ≡ false → o ≡ none
is_some-none o h = ground arith

pub is_empty-nil {ℓ} : {A : Type ℓ} (xs : List A) → not (is_empty xs) ≡ false → xs ≡ []
is_empty-nil [] h = refl
is_empty-nil (x ∷ xs) h = absurd (ground arith)

-- The operations for prefixes that are these of net/netip, the network of the interface and its index.
abbrev pub linux_ops :
    (Ip Prefix : Type 0) (net : Netip) (kernel : Kernel net)
    → RuleLaws kernel
    → ℕ
    → (Prefix → net.Prefix)
    → net.Prefix
    → Option ℕ
    → SysOps Ip Prefix
linux_ops Ip Prefix net kernel laws mark as_prefix wg_network intf = record {
  System = State kernel.Sysctl kernel.World;
  setup_routing = λ ips s. let (e, s') = setup_routing net kernel mark true s in (is_some e, s');
  cleanup_routing =
      λ s. let (es, s') = cleanup_routing net kernel mark true s in (not (is_empty es), s');
  remove_vpn_route = λ p s.
      let (e, w) = remove_vpn_route net kernel wg_network true (as_prefix p) intf s.world in
      (is_some e, record s { world = w });
  Installed = λ s. All (IsInstalled net kernel laws s.world) (get_setup_rules mark);
  Removed = λ s. All (IsAbsent net kernel laws s.world) (get_setup_rules mark);
  setup_lem = λ ips s h.
      setup_routing-installs net kernel laws mark s
        (is_some-none (setup_routing net kernel mark true s).0 h);
  cleanup_lem = λ s h.
      cleanup_routing-removes net kernel laws mark s
        (is_empty-nil (cleanup_routing net kernel mark true s).0 h);
}

module _ (env : LifeEnv) (flush : FlushLaws env) (net : Netip) (kernel : Kernel net)
    (laws : RuleLaws kernel) (mark : ℕ) (as_prefix : env.Prefix → net.Prefix)
    (wg_network : net.Prefix) (intf : Option ℕ) where
  abbrev pub ops : SysOps env.Ip env.Prefix
  ops = linux_ops env.Ip env.Prefix net kernel laws mark as_prefix wg_network intf

  -- On Linux with advanced routing, where custom routing is on and client routes are not disabled:
  -- after Init without error each of the four policy rules whose family the kernel has is installed,
  -- and after a Stop in whose end CleanupRouting reports no error none of them is. Where custom routing
  -- is off or client routes are disabled, Init succeeds and leaves the system alone, and Stop at most
  -- removes VPN routes: it keeps all that RemoveVPNRoute keeps, and the system as it is where client
  -- routes are disabled or the netstack is used.
  pub init-stop_linux :
      (s : Life env ops)
      → ((env.custom_routing_disabled || s.disable_client_routes) ≡ false
          → ((init env ops s).0 ≡ false
              → All
                  (IsInstalled net kernel laws (init env ops s).1.system.world)
                  (get_setup_rules mark))
            × ((cleanup_routing net kernel mark true (flushed env ops s).1).0 ≡ []
                → All
                    (IsAbsent net kernel laws (stop env ops s).system.world)
                    (get_setup_rules mark)))
        × ((env.custom_routing_disabled || s.disable_client_routes) ≡ true
            → ((init env ops s).0 ≡ false)
              × ((init env ops s).1.system ≡ s.system)
              × ((P : ops.System → Type 0)
                  → IsKept env ops flush P
                  → P s.system
                  → P (stop env ops s).system)
              × ((env.netstack_enabled || s.disable_client_routes) ≡ true
                  → (stop env ops s).system ≡ s.system))
  init-stop_linux s = (
    λ on.
        let both = init-stop env ops flush s on in
        (both.0, λ none_left. both.1 (ap (λ es. not (is_empty es)) none_left)),
    init-stop_off env ops flush s,
  )

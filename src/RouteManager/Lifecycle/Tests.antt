-- ===== src/RouteManager/Lifecycle/Tests.antt =====
-- The start and the end of a route manager over the sample kernel.
use netbird_minimal.Common.{ℕ, String, ◌≡◌, true, false, ◌||◌, none, some, [], ◌∷◌, All}
use netbird_minimal.SystemOps.Sample.{sample_net, sample_kernel, sample_rule_laws}
use netbird_minimal.RouteManager.Lifecycle.{SysOps, LifeEnv, Life, init, flushed, stop}
use netbird_minimal.RouteManager.Lifecycle.Routing.{FlushLaws, IsKept}
use netbird_minimal.RouteManager.Lifecycle.Linux.{linux_ops, init-stop_linux}
use netbird_minimal.SystemOps.Rules.{get_setup_rules, cleanup_routing}
use netbird_minimal.SystemOps.Rules.Installed.{IsInstalled, IsAbsent}

abbrev sample_life : LifeEnv
sample_life = record {
  Ip = String;
  Selector = Unit {0};
  new_route_selector = tt;
  load_state = none;
  parse_url = λ u. some u;
  lookup_ip = λ h. some (h ∷ []);
  management_url = "api.netbird.io";
  signal_url = "signal.netbird.io";
  relay_urls = none;
  custom_routing_disabled = false;
  netstack_enabled = false;
  World = Unit {0};
  wait_watchers = λ w. w;
  new_router = λ w. (false, w);
  router_clean_up = λ w. w;
  Prefix = ℕ;
  flush_routes = λ f t. (t.0, (f 7 t.1).1);
  flush_allowed_ips = λ w. w;
}

-- The counter has one prefix.
flush_laws : FlushLaws sample_life
flush_laws = record { flush_lem = λ P f h w t a. h 7 t a }

abbrev sample_ops : SysOps String ℕ
sample_ops = linux_ops String ℕ sample_net sample_kernel sample_rule_laws 42 (λ p. p) 100 (some 3)

abbrev fresh : Life sample_life sample_ops
fresh = record {
  route_selector = none;
  closed = false;
  has_firewall = false;
  has_server_router = false;
  disable_client_routes = false;
  disable_server_routes = false;
  has_client_routes = false;
  system = record {
    original_sysctl = none;
    sysctl_failed = false;
    world = record { rules = λ r. false; routes = λ r. false };
  };
  world = tt;
}

init-stop_linux_example :
    ((sample_life.custom_routing_disabled || fresh.disable_client_routes) ≡ false
      → ((init sample_life sample_ops fresh).0 ≡ false
          → All
              (IsInstalled sample_net sample_kernel sample_rule_laws
                (init sample_life sample_ops fresh).1.system.world)
              (get_setup_rules 42))
        × ((cleanup_routing sample_net sample_kernel 42 true
                (flushed sample_life sample_ops fresh).1).0
              ≡ []
            → All
                (IsAbsent sample_net sample_kernel sample_rule_laws
                  (stop sample_life sample_ops fresh).system.world)
                (get_setup_rules 42)))
    × ((sample_life.custom_routing_disabled || fresh.disable_client_routes) ≡ true
        → ((init sample_life sample_ops fresh).0 ≡ false)
          × ((init sample_life sample_ops fresh).1.system ≡ fresh.system)
          × ((P : sample_ops.System → Type 0)
              → IsKept sample_life sample_ops flush_laws P
              → P fresh.system
              → P (stop sample_life sample_ops fresh).system)
          × ((sample_life.netstack_enabled || fresh.disable_client_routes) ≡ true
              → (stop sample_life sample_ops fresh).system ≡ fresh.system))
init-stop_linux_example =
    init-stop_linux sample_life flush_laws sample_net sample_kernel sample_rule_laws 42 (λ p. p) 100
      (some 3) fresh

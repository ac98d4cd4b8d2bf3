-- ===== src/SystemOps/Rules/Tests.antt =====
-- The policy rules on the sample kernel.
use netbird_minimal.Common.{refl, true, false, none, All}
use netbird_minimal.SystemOps.Types.{is_op_err}
use netbird_minimal.SystemOps.Rules.{
  State, get_setup_rules, add_rule, remove_rule, add_rules, remove_rules, flush_routes,
  delete_routes, cleanup_routing, setup_routing,
}
use netbird_minimal.SystemOps.Rules.Installed.{
  IsInstalled, IsAbsent, setup_routing-installs, cleanup_routing-removes,
}
use netbird_minimal.SystemOps.Sample.{World, sample_net, sample_kernel, sample_rule_laws}

abbrev start : State (Unit {0}) World
start = record {
  original_sysctl = none;
  sysctl_failed = false;
  world = record { rules = λ r. false; routes = λ r. false };
}

abbrev ready : State (Unit {0}) World
ready = (setup_routing sample_net sample_kernel 42 true start).1

setup_routing-installs_example :
    All (IsInstalled sample_net sample_kernel sample_rule_laws ready.world) (get_setup_rules 42)
unfolding setup_routing add_rules add_rule get_setup_rules is_op_err
setup_routing-installs_example =
    setup_routing-installs sample_net sample_kernel sample_rule_laws 42 start refl

cleanup_routing-removes_example :
    All
      (IsAbsent sample_net sample_kernel sample_rule_laws
        (cleanup_routing sample_net sample_kernel 42 true ready).1.world)
      (get_setup_rules 42)
unfolding setup_routing add_rules add_rule get_setup_rules cleanup_routing remove_rules remove_rule
    flush_routes delete_routes is_op_err
cleanup_routing-removes_example =
    cleanup_routing-removes sample_net sample_kernel sample_rule_laws 42 ready refl

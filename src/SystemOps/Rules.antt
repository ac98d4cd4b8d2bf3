-- ===== src/SystemOps/Rules.antt =====
-- The policy rules of the VPN table: getSetupRules, addRule, removeRule, SetupRouting and
-- CleanupRouting of go/internal/routemanager/systemops/systemops_linux.go.
pub mod Installed
mod Tests
use netbird_minimal.Common.{
  ℕ, String, Bool, true, false, not, ◌&&◌, ◌||◌, Option, none, some, List, [], ◌∷◌, ◌++◌,
  if◌then◌else◌,
}
use netbird_minimal.SystemOps.Types.{
  Family, v4, v6, Errno, RuleParams, Rule, NlRoute, SysError, netlink, context, list_routes, sysctl,
  is_op_err, is_eexist, is_enoent, rt_table_main, netbird_vpn_table_id,
}
use netbird_minimal.SystemOps.Env.{Netip, Kernel}

-- getSetupRules; the mark is nbnet.ControlPlaneMark
unfoldable pub get_setup_rules : ℕ → List RuleParams
get_setup_rules mark =
    record {
      priority = 105;
      fwmark = 0;
      table_id = rt_table_main;
      family = v4;
      invert = false;
      suppress_prefix = some 0;
      description = "rule with suppress prefixlen v4";
    }
    ∷ record {
      priority = 105;
      fwmark = 0;
      table_id = rt_table_main;
      family = v6;
      invert = false;
      suppress_prefix = some 0;
      description = "rule with suppress prefixlen v6";
    }
    ∷ record {
      priority = 110;
      fwmark = mark;
      table_id = netbird_vpn_table_id;
      family = v4;
      invert = true;
      suppress_prefix = none;
      description = "rule v4 netbird";
    }
    ∷ record {
      priority = 110;
      fwmark = mark;
      table_id = netbird_vpn_table_id;
      family = v6;
      invert = true;
      suppress_prefix = none;
      description = "rule v6 netbird";
    }
    ∷ []

-- the netlink rule that addRule and removeRule fill in
abbrev pub to_rule : RuleParams → Rule
to_rule p = record {
  table = p.table_id;
  mark = p.fwmark;
  family = p.family;
  priority = p.priority;
  invert = p.invert;
  suppress_prefixlen = p.suppress_prefix;
}

-- the globals of the file, and the kernel
pub record State (Sysctl World : Type 0) : Type 0 where
  pub original_sysctl : Option Sysctl
  pub sysctl_failed : Bool
  pub world : World

-- one entry of CleanupRouting's multierror for a step with errors
abbrev pub report : String → List SysError → List (String × List SysError)
report s [] = []
report s (e ∷ es) = (s, e ∷ es) ∷ []

module _ (net : Netip) (kernel : Kernel net) where
  open net use {IpNet, Addr}
  open kernel use {World, Sysctl}

  -- addRule
  unfoldable pub add_rule : RuleParams → World → Option SysError × World
  unfolding is_op_err
  add_rule p w =
      let (e, w') = kernel.rule_add (to_rule p) w in
      elim e [
        | none ↦ (none, w')
        | some n ↦
            if not (is_eexist n) && not (is_op_err n)
            then (some (context "add routing rule" (netlink n)), w')
            else (none, w')
      ]

  -- removeRule
  unfoldable pub remove_rule : RuleParams → World → Option SysError × World
  unfolding is_op_err
  remove_rule p w =
      let (e, w') = kernel.rule_del (to_rule p) w in
      elim e [
        | none ↦ (none, w')
        | some n ↦
            if not (is_enoent n) && not (is_op_err n)
            then (some (context "remove routing rule" (netlink n)), w')
            else (none, w')
      ]

  -- the loop of SetupRouting, which stops at the first error
  unfoldable pub add_rules : List RuleParams → World → Option SysError × World
  unfolding add_rule
  add_rules [] w = (none, w)
  add_rules (p ∷ ps) w =
      let (e, w') = add_rule p w in
      elim e [ some x ↦ (some (context p.description x), w') | none ↦ add_rules ps w' ]

  -- the loop of CleanupRouting, which collects the errors
  unfoldable pub remove_rules : List RuleParams → World → List SysError × World
  unfolding remove_rule
  remove_rules [] w = ([], w)
  remove_rules (p ∷ ps) w =
      let (e, w1) = remove_rule p w in
      let (es, w2) = remove_rules ps w1 in
      (elim e [ none ↦ es | some x ↦ context p.description x ∷ es ], w2)

  -- an unreachable default route does not come back with its destination, which flushRoutes
  -- sets again
  unfoldable pub flush_target : Family → NlRoute IpNet Addr → NlRoute IpNet Addr
  flush_target family r = elim r.gw [
    | some g ↦ r
    | none ↦ elim r.src [
      | some s ↦ r
      | none ↦ elim r.dst [ some d ↦ r | none ↦ record r { dst = some (net.zero_net family) } ]
    ]
  ]

  -- the loop of flushRoutes, which collects the errors
  unfoldable pub delete_routes : Family → List (NlRoute IpNet Addr) → World → List SysError × World
  unfolding is_op_err flush_target
  delete_routes family [] w = ([], w)
  delete_routes family (r ∷ rs) w =
      let (e, w1) = kernel.route_del (flush_target family r) w in
      let (es, w2) = delete_routes family rs w1 in
      (
        elim e [
          | none ↦ es
          | some n ↦
              if not (is_op_err n) then context "failed to delete route" (netlink n) ∷ es else es
        ],
        w2,
      )

  -- flushRoutes
  unfoldable pub flush_routes : ℕ → Family → World → List SysError × World
  unfolding delete_routes
  flush_routes table family w = elim (kernel.route_list family table w) [
    | none ↦ (context "list routes" list_routes ∷ [], w)
    | some routes ↦ delete_routes family routes w
  ]

  -- CleanupRouting: every step is made, and the errors are collected
  unfoldable pub cleanup_routing :
      ℕ → Bool → State Sysctl World → List (String × List SysError) × State Sysctl World
  unfolding flush_routes remove_rules get_setup_rules
  cleanup_routing mark advanced s =
      if not advanced
      then (let (e, w) = kernel.cleanup_ref_counter s.world in
          (elim e [ none ↦ [] | some x ↦ ("", x ∷ []) ∷ [] ], record s { world = w }))
      else (let (e4, w1) = flush_routes netbird_vpn_table_id v4 s.world in
          let (e6, w2) = flush_routes netbird_vpn_table_id v6 w1 in
          let (er, w3) = remove_rules (get_setup_rules mark) w2 in
          let (failed, w4) = kernel.sysctl_cleanup s.original_sysctl w3 in
          (
            report "flush routes v4" e4
                ++ (report "flush routes v6" e6
                    ++ (report "rules" er
                        ++ report "cleanup sysctl" (if failed then sysctl ∷ [] else []))),
            record { original_sysctl = none; sysctl_failed = false; world = w4 },
          ))

  -- SetupRouting, with its deferred clean-up; what the clean-up reports is only logged
  unfoldable pub setup_routing :
      ℕ → Bool → State Sysctl World → Option SysError × State Sysctl World
  unfolding add_rules cleanup_routing get_setup_rules
  setup_routing mark advanced s =
      if not advanced
      then (let (e, w) = kernel.setup_ref_counter s.world in (e, record s { world = w }))
      else (let (e, w1) = add_rules (get_setup_rules mark) s.world in
          elim e [
            | some x ↦ (some x, (cleanup_routing mark advanced (record s { world = w1 })).1)
            | none ↦
                let ((values, failed), w2) =
                  kernel.sysctl_setup (kernel.add_routing_table_name w1) in
                (
                  none,
                  record {
                    original_sysctl = values;
                    sysctl_failed = if failed then true else s.sysctl_failed;
                    world = w2;
                  },
                )
          ])

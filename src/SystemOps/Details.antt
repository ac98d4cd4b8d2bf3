-- ===== src/SystemOps/Details.antt =====
-- Listing routes and rules for display: getRoutes, getDetailedRoutes and getIPRules of
-- go/internal/routemanager/systemops/systemops_linux.go with what calls them.
pub mod Agree
mod Tests
use netbird_minimal.Common.{
  ℕ, String, Bool, true, false, not, ◌||◌, Option, none, some, List, [], ◌∷◌, ◌++◌, map,
  if◌then◌else◌, ltb, ◌%◌, ◌^◌,
}
use netbird_minimal.Common.Outcome.{Outcome, ok, err, panic}
use netbird_minimal.SystemOps.Types.{
  Family, v4, v6, SysError, context, list_routes, parse_prefix, rt_table_main, rt_table_local,
  netbird_vpn_table_id,
}
use netbird_minimal.SystemOps.Names.{
  route_protocol_to_string, route_scope_to_string, route_type_to_string, route_table_to_string,
  rule_table_to_string, rule_action_to_string,
}
use netbird_minimal.SystemOps.Listing.{
  IpNet, ListedRoute, ListedRule, Listing, DetailedRoute, IpRule,
}
use netbird_minimal.SystemOps.Tables.{discover_routing_tables}

module _ (net : Listing) where
  open net use {Ip, Addr, Prefix, Int}

  -- netip.PrefixFrom of the address and the ones of a destination
  abbrev pub prefix_of : Addr → IpNet Ip → Prefix
  prefix_of addr n = net.prefix_from (net.unmap addr) n.ones

  -- processRouteDestination: the destination, or `none` for false
  unfoldable pub process_route_destination : ListedRoute Ip → Family → Option Prefix
  process_route_destination route family = elim route.dst [
    | none ↦ some (net.zero_prefix family)
    | some n ↦ elim (net.addr_from_slice n.ip) [
      | none ↦ none
      | some addr ↦ if net.is_valid (prefix_of addr n) then some (prefix_of addr n) else none
    ]
  ]

  -- processRouteGateway
  unfoldable pub process_route_gateway : ListedRoute Ip → Addr
  process_route_gateway route = elim route.gw [
    | none ↦ net.no_addr
    | some g ↦ elim (net.addr_from_slice g) [ none ↦ net.no_addr | some a ↦ net.unmap a ]
  ]

  -- processRouteInterface
  unfoldable pub process_route_interface : (String → String) → ListedRoute Ip → Option (ℕ × String)
  process_route_interface index_name route =
      if ltb 0 route.link_index
      then (elim (net.link_by_index route.link_index) [
        | some link ↦ some link
        | none ↦ some (route.link_index, index_name (net.decimal route.link_index))
      ])
      else none

  -- buildDetailedRoute
  unfoldable pub build_detailed_route :
      (String → String) → ListedRoute Ip → ℕ → Family → Option (DetailedRoute Prefix Addr)
  build_detailed_route index_name route table family =
      elim (process_route_destination route family) [
        | none ↦ none
        | some prefix ↦ some record {
          dst = prefix;
          gw = process_route_gateway route;
          interface = process_route_interface index_name route;
          metric = route.priority;
          interface_index = route.link_index;
          protocol = route_protocol_to_string net.decimal route.protocol;
          scope = route_scope_to_string net.decimal route.scope;
          route_type = route_type_to_string net.decimal route.route_type;
          table = route_table_to_string net.decimal table;
        }
      ]

  -- the loop of getDetailedRoutes
  unfoldable pub detailed_all :
      (String → String) → List (ListedRoute Ip) → ℕ → Family → List (DetailedRoute Prefix Addr)
  detailed_all index_name [] table family = []
  detailed_all index_name (r ∷ rs) table family =
      let rest = detailed_all index_name rs table family in
      elim (build_detailed_route index_name r table family) [ none ↦ rest | some d ↦ d ∷ rest ]

  -- getDetailedRoutes
  unfoldable pub get_detailed_routes :
      (String → String) → ℕ → Family → Outcome SysError (List (DetailedRoute Prefix Addr))
  get_detailed_routes index_name table family = elim (net.route_list family table) [
    | none ↦ err list_routes
    | some routes ↦ ok (detailed_all index_name routes table family)
  ]

  -- getRoutesForFamily: an error is only logged
  unfoldable pub get_routes_for_family :
      (String → String) → ℕ → Family → List (DetailedRoute Prefix Addr)
  get_routes_for_family index_name table family =
      elim (get_detailed_routes index_name table family) [
        | ok routes ↦ routes
        | err e ↦ []
        | panic ↦ []
      ]

  -- collectRoutesFromTable
  unfoldable pub collect_routes_from_table :
      (String → String) → ℕ → List (DetailedRoute Prefix Addr)
  collect_routes_from_table index_name table =
      get_routes_for_family index_name table v4 ++ get_routes_for_family index_name table v6

  -- collectRoutesFromTables
  unfoldable pub collect_routes_from_tables :
      (String → String) → List ℕ → List (DetailedRoute Prefix Addr)
  collect_routes_from_tables index_name [] = []
  collect_routes_from_tables index_name (t ∷ ts) =
      collect_routes_from_table index_name t ++ collect_routes_from_tables index_name ts

  -- GetDetailedRoutesFromTable
  unfoldable pub get_detailed_routes_from_table :
      (String → String) → List (DetailedRoute Prefix Addr)
  get_detailed_routes_from_table index_name =
      collect_routes_from_tables index_name (discover_routing_tables net.route_tables)

  -- the loop of getRoutes
  unfoldable pub prefixes : List (ListedRoute Ip) → Outcome SysError (List Prefix)
  prefixes [] = ok []
  prefixes (r ∷ rs) =
      let rest = prefixes rs in
      elim r.dst [
        | none ↦ rest
        | some n ↦ elim (net.addr_from_slice n.ip) [
          | none ↦ err parse_prefix
          | some addr ↦ elim rest [
            | ok ps ↦ ok (if net.is_valid (prefix_of addr n) then prefix_of addr n ∷ ps else ps)
            | err e ↦ err e
            | panic ↦ panic
          ]
        ]
      ]

  -- getRoutes
  unfoldable pub get_routes : ℕ → Family → Outcome SysError (List Prefix)
  get_routes table family = elim (net.route_list family table) [
    | none ↦ err list_routes
    | some routes ↦ prefixes routes
  ]

  -- GetRoutesFromTable
  unfoldable pub get_routes_from_table : Outcome SysError (List Prefix)
  get_routes_from_table = elim (get_routes rt_table_main v4) [
    | err e ↦ err (context "get v4 routes" e)
    | panic ↦ panic
    | ok r4 ↦ elim (get_routes rt_table_main v6) [
      | err e ↦ err (context "get v6 routes" e)
      | panic ↦ panic
      | ok r6 ↦ ok (r4 ++ r6)
    ]
  ]

  -- parseRulePrefix
  unfoldable pub parse_rule_prefix : IpNet Ip → Prefix
  parse_rule_prefix n = elim (net.addr_from_slice n.ip) [
    | none ↦ net.no_prefix
    | some addr ↦ if net.is_valid (prefix_of addr n) then prefix_of addr n else net.no_prefix
  ]

  -- buildIPRule
  unfoldable pub build_ip_rule : ListedRule Ip Int → IpRule Prefix Int
  build_ip_rule rule = record {
    priority = rule.priority;
    from = elim rule.src [ none ↦ net.no_prefix | some n ↦ parse_rule_prefix n ];
    to = elim rule.dst [ none ↦ net.no_prefix | some n ↦ parse_rule_prefix n ];
    iif = rule.iif_name;
    oif = rule.oif_name;
    table = rule_table_to_string net.decimal rule.table;
    action = rule_action_to_string net.decimal rule.rule_type;
    mark = rule.mark;
    mask = elim rule.mask [ none ↦ 0 | some m ↦ m ];
    tun_id = rule.tun_id % 2 ^ 32;
    goto_priority = net.to_uint32 rule.goto_priority;
    flow = net.to_uint32 rule.flow;
    suppress_plen = rule.suppress_prefixlen;
    suppress_ifl = rule.suppress_ifgroup;
    invert = rule.invert;
  }

  -- getIPRules
  unfoldable pub get_ip_rules_of : Family → Outcome SysError (List (IpRule Prefix Int))
  get_ip_rules_of family = elim (net.rule_list family) [
    | none ↦ err list_routes
    | some rules ↦ ok (map build_ip_rule rules)
  ]

  -- GetIPRules
  unfoldable pub get_ip_rules : Outcome SysError (List (IpRule Prefix Int))
  get_ip_rules = elim (get_ip_rules_of v4) [
    | err e ↦ err (context "get v4 rules" e)
    | panic ↦ panic
    | ok r4 ↦ elim (get_ip_rules_of v6) [
      | err e ↦ err (context "get v6 rules" e)
      | panic ↦ panic
      | ok r6 ↦ ok (r4 ++ r6)
    ]
  ]

-- ===== src/SystemOps/Routes.antt =====
-- The routes of the VPN: validateRoute of go/internal/routemanager/systemops/systemops.go, and
-- addRoute, removeRoute, AddVPNRoute and RemoveVPNRoute of systemops_linux.go with what they call.
pub mod Effects
pub mod Vpn
mod Tests
use netbird_minimal.Common.{
  ℕ, String, Bool, true, false, not, ◌&&◌, ◌||◌, Option, none, some, List, [], ◌∷◌, ◌++◌, ◌==◌,
  if◌then◌else◌, is_some, str_eq,
}
use netbird_minimal.SystemOps.Types.{
  Family, v4, v6, Errno, NlRoute, Nexthop, SysError, netlink, context, route_not_allowed,
  parse_prefix, link_by_name, list_routes, is_op_err, is_esrch, is_enoent, rt_table_main,
  netbird_vpn_table_id, rtn_unreachable, scope_universe,
}
use netbird_minimal.SystemOps.Env.{Netip, Kernel}

module _ (net : Netip) (kernel : Kernel net) where
  open net use {Addr, Prefix, IpNet}
  open kernel use {World}

  -- the checks of the error of netlink.RouteAdd
  unfoldable pub add_answer : String → Option Errno × World → Option SysError × World
  unfolding is_op_err
  add_answer s (none, w) = (none, w)
  add_answer s (some n, w) = (if not (is_op_err n) then some (context s (netlink n)) else none, w)

  -- the checks of the error of netlink.RouteDel in removeRoute
  unfoldable pub del_answer : Option Errno × World → Option SysError × World
  unfolding is_op_err
  del_answer (none, w) = (none, w)
  del_answer (some n, w) = (
    if not (is_esrch n) && not (is_op_err n)
        then some (context "netlink remove route" (netlink n))
        else none,
    w,
  )

  -- the checks of the error of netlink.RouteDel in removeUnreachableRoute
  unfoldable pub del_unreachable_answer : Option Errno × World → Option SysError × World
  unfolding is_op_err
  del_unreachable_answer (none, w) = (none, w)
  del_unreachable_answer (some n, w) = (
    if not (is_esrch n) && not (is_enoent n) && not (is_op_err n)
        then some (context "netlink remove unreachable route" (netlink n))
        else none,
    w,
  )

  -- validateRoute: whether the prefix is allowed, for the network of the WireGuard interface
  unfoldable pub is_forbidden : Prefix → Prefix → Bool
  is_forbidden wg_network prefix =
      let addr = net.prefix_addr prefix in
      not (net.is_valid addr)
      || net.is_loopback addr
      || net.is_link_local_unicast addr
      || net.is_link_local_multicast addr
      || net.is_interface_local_multicast addr
      || net.is_multicast addr
      || (net.is_unspecified addr
          && not (elim (net.bits prefix) [ none ↦ false | some n ↦ n == 0 ]))
      || net.prefix_contains wg_network addr

  unfoldable pub validate_route : Prefix → Prefix → Option SysError
  validate_route wg_network prefix =
      if is_forbidden wg_network prefix then some route_not_allowed else none

  -- getAddressFamily
  unfoldable pub get_address_family : Prefix → Family
  get_address_family prefix = if net.is4 (net.prefix_addr prefix) then v4 else v6

  -- addNextHop: the route with its gateway and device, or an error
  unfoldable pub add_next_hop :
      Nexthop Addr → NlRoute IpNet Addr → World → Option (NlRoute IpNet Addr)
  add_next_hop hop route w =
      let r1 : NlRoute IpNet Addr = elim hop.intf [
        | none ↦ route
        | some i ↦ record route { link_index = i }
      ] in
      if net.is_valid hop.ip
      then (let r2 : NlRoute IpNet Addr = record r1 { gw = some hop.ip } in
          if not (str_eq (net.zone hop.ip) "") && not (is_some hop.intf)
          then elim (kernel.link_by_name (net.zone hop.ip) w) [
            | none ↦ none
            | some i ↦ some (record r2 { link_index = i })
          ]
          else some r2)
      else some r1

  -- the route that addRoute and removeRoute start from
  abbrev pub universe_route : Prefix → IpNet → ℕ → NlRoute IpNet Addr
  universe_route prefix ip_net table = record {
    route_type = 0;
    scope = scope_universe;
    table = table;
    family = get_address_family prefix;
    dst = some ip_net;
    gw = none;
    src = none;
    link_index = 0;
  }

  -- the route of addUnreachableRoute and removeUnreachableRoute
  abbrev pub unreachable_route : Prefix → IpNet → ℕ → NlRoute IpNet Addr
  unreachable_route prefix ip_net table = record (universe_route prefix ip_net table) {
    route_type = rtn_unreachable;
  }

  -- addRoute
  unfoldable pub add_route : Prefix → Nexthop Addr → ℕ → World → Option SysError × World
  add_route prefix hop table w = elim (net.to_ip_net prefix) [
    | none ↦ (some parse_prefix, w)
    | some ip_net ↦ elim (add_next_hop hop (universe_route prefix ip_net table) w) [
      | none ↦ (some (context "add gateway and device" (link_by_name (net.zone hop.ip))), w)
      | some route ↦ add_answer "netlink add route" (kernel.route_add route w)
    ]
  ]

  -- removeRoute
  unfoldable pub remove_route : Prefix → Nexthop Addr → ℕ → World → Option SysError × World
  remove_route prefix hop table w = elim (net.to_ip_net prefix) [
    | none ↦ (some parse_prefix, w)
    | some ip_net ↦ elim (add_next_hop hop (universe_route prefix ip_net table) w) [
      | none ↦ (some (context "add gateway and device" (link_by_name (net.zone hop.ip))), w)
      | some route ↦ del_answer (kernel.route_del route w)
    ]
  ]

  -- addUnreachableRoute
  unfoldable pub add_unreachable_route : Prefix → ℕ → World → Option SysError × World
  add_unreachable_route prefix table w = elim (net.to_ip_net prefix) [
    | none ↦ (some parse_prefix, w)
    | some ip_net ↦
        add_answer "netlink add unreachable route"
          (kernel.route_add (unreachable_route prefix ip_net table) w)
  ]

  -- removeUnreachableRoute
  unfoldable pub remove_unreachable_route : Prefix → ℕ → World → Option SysError × World
  remove_unreachable_route prefix table w = elim (net.to_ip_net prefix) [
    | none ↦ (some parse_prefix, w)
    | some ip_net ↦
        del_unreachable_answer (kernel.route_del (unreachable_route prefix ip_net table) w)
  ]

  -- the next hop of a VPN route: the interface alone
  abbrev pub vpn_hop : Option ℕ → Nexthop Addr
  vpn_hop intf = record { ip = net.no_addr; intf = intf }

  -- `if err != nil { return fmt.Errorf(...) }` behind a step, and then the rest
  abbrev pub then_do :
      Option SysError × World → String → (World → Option SysError × World) → Option SysError × World
  then_do (none, w) s rest = rest w
  then_do (some e, w) s rest = (some (context s e), w)

  abbrev pub finish : World → Option SysError × World
  finish w = (none, w)

  -- AddVPNRoute, for the network of the WireGuard interface and nbnet.AdvancedRouting()
  unfoldable pub add_vpn_route : Prefix → Bool → Prefix → Option ℕ → World → Option SysError × World
  add_vpn_route wg_network advanced prefix intf w = elim (validate_route wg_network prefix) [
    | some e ↦ (some e, w)
    | none ↦
        if not advanced
        then kernel.generic_add_vpn_route prefix intf w
        else then_do
            (if net.prefix_eq prefix net.default_v4
              then add_unreachable_route net.default_v6 netbird_vpn_table_id w
              else (none, w))
            "add blackhole"
            (λ w1.
              then_do (add_route prefix (vpn_hop intf) netbird_vpn_table_id w1) "add route" finish)
  ]

  -- RemoveVPNRoute
  unfoldable pub remove_vpn_route :
      Prefix → Bool → Prefix → Option ℕ → World → Option SysError × World
  remove_vpn_route wg_network advanced prefix intf w = elim (validate_route wg_network prefix) [
    | some e ↦ (some e, w)
    | none ↦
        if not advanced
        then kernel.generic_remove_vpn_route prefix intf w
        else then_do
            (if net.prefix_eq prefix net.default_v4
              then remove_unreachable_route net.default_v6 netbird_vpn_table_id w
              else (none, w))
            "remove unreachable route"
            (λ w1.
              then_do (remove_route prefix (vpn_hop intf) netbird_vpn_table_id w1) "remove route"
                finish)
  ]

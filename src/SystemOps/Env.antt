-- ===== src/SystemOps/Env.antt =====
-- What the routing code calls: net/netip, netlink, sysctl and the legacy reference counters.
use netbird_minimal.Common.{ℕ, String, Bool, Option, List}
use netbird_minimal.SystemOps.Types.{Family, Errno, Rule, NlRoute, SysError}

-- net/netip and net
pub record Netip : Type 1 where
  pub Addr : Type 0
  pub Prefix : Type 0
  pub IpNet : Type 0
  pub is_valid : Addr → Bool
  pub is_loopback : Addr → Bool
  pub is_link_local_unicast : Addr → Bool
  pub is_link_local_multicast : Addr → Bool
  pub is_interface_local_multicast : Addr → Bool
  pub is_multicast : Addr → Bool
  pub is_unspecified : Addr → Bool
  pub is4 : Addr → Bool
  -- Addr.Zone, "" for none
  pub zone : Addr → String
  -- the zero Addr
  pub no_addr : Addr
  pub prefix_addr : Prefix → Addr
  -- Prefix.Bits; `none` is -1
  pub bits : Prefix → Option ℕ
  pub prefix_eq : Prefix → Prefix → Bool
  -- Prefix.Contains
  pub prefix_contains : Prefix → Addr → Bool
  -- the network of net.ParseCIDR(prefix.String())
  pub to_ip_net : Prefix → Option IpNet
  -- 0.0.0.0/0 and ::/0 as a net.IPNet
  pub zero_net : Family → IpNet
  -- vars.Defaultv4 and vars.Defaultv6
  pub default_v4 : Prefix
  pub default_v6 : Prefix

-- The kernel behind netlink, with sysctl and the legacy routing of the other files.
pub record Kernel (net : Netip) : Type 1 where
  pub World : Type 0
  pub Sysctl : Type 0
  pub route_add : NlRoute (net.IpNet) (net.Addr) → World → Option Errno × World
  pub route_del : NlRoute (net.IpNet) (net.Addr) → World → Option Errno × World
  -- netlink.RouteListFiltered by table, `none` for an error
  pub route_list : Family → ℕ → World → Option (List (NlRoute (net.IpNet) (net.Addr)))
  pub rule_add : Rule → World → Option Errno × World
  pub rule_del : Rule → World → Option Errno × World
  -- the index of netlink.LinkByName
  pub link_by_name : String → World → Option ℕ
  -- sysctl.Setup: the original values, and whether it failed
  pub sysctl_setup : World → (Option Sysctl × Bool) × World
  -- sysctl.Cleanup: whether it failed
  pub sysctl_cleanup : Option Sysctl → World → Bool × World
  -- addRoutingTableName: its error is only logged
  pub add_routing_table_name : World → World
  pub setup_ref_counter : World → Option SysError × World
  pub cleanup_ref_counter : World → Option SysError × World
  pub generic_add_vpn_route : net.Prefix → Option ℕ → World → Option SysError × World
  pub generic_remove_vpn_route : net.Prefix → Option ℕ → World → Option SysError × World

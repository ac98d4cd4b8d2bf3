-- ===== src/SystemOps/Listing.antt =====
-- What a listing of routes and rules reads and shows: the types of netlink and of net/netip for
-- go/internal/routemanager/systemops/systemops_linux.go, with IPRule, Route and DetailedRoute.
use netbird_minimal.Common.{ℕ, String, Bool, Option, List}
use netbird_minimal.SystemOps.Types.{Family}

-- net.IPNet: the bytes of the address, and the ones of the mask
pub record IpNet (Ip : Type 0) : Type 0 where
  pub ip : Ip
  pub ones : ℕ

-- netlink.Route as a listing gives it
pub record ListedRoute (Ip : Type 0) : Type 0 where
  pub dst : Option (IpNet Ip)
  pub gw : Option Ip
  pub priority : ℕ
  pub link_index : ℕ
  pub protocol : ℕ
  pub scope : ℕ
  pub route_type : ℕ

-- netlink.Rule as a listing gives it
pub record ListedRule (Ip Int : Type 0) : Type 0 where
  pub priority : Int
  pub iif_name : String
  pub oif_name : String
  pub table : ℕ
  pub rule_type : ℕ
  pub mark : ℕ
  pub mask : Option ℕ
  pub tun_id : ℕ
  pub goto_priority : Int
  pub flow : Int
  pub suppress_prefixlen : Int
  pub suppress_ifgroup : Int
  pub invert : Bool
  pub src : Option (IpNet Ip)
  pub dst : Option (IpNet Ip)

-- net/netip and netlink as these functions use them
pub record Listing : Type 1 where
  pub Ip : Type 0
  pub Addr : Type 0
  pub Prefix : Type 0
  pub Int : Type 0
  pub addr_from_slice : Ip → Option Addr
  pub unmap : Addr → Addr
  pub prefix_from : Addr → ℕ → Prefix
  pub is_valid : Prefix → Bool
  -- the zero Prefix and the zero Addr
  pub no_prefix : Prefix
  pub no_addr : Addr
  -- 0.0.0.0/0 and ::/0
  pub zero_prefix : Family → Prefix
  -- %d
  pub decimal : ℕ → String
  -- the conversion uint32(_)
  pub to_uint32 : Int → ℕ
  -- netlink.RouteListFiltered by table, `none` for an error
  pub route_list : Family → ℕ → Option (List (ListedRoute Ip))
  -- the tables of netlink.RouteListFiltered for table 0
  pub route_tables : Family → Option (List ℕ)
  pub rule_list : Family → Option (List (ListedRule Ip Int))
  -- the index and the name of netlink.LinkByIndex
  pub link_by_index : ℕ → Option (ℕ × String)

-- Route and DetailedRoute; the interface metric is -1 and the flags are "-" for every route
pub record DetailedRoute (Prefix Addr : Type 0) : Type 0 where
  pub dst : Prefix
  pub gw : Addr
  pub interface : Option (ℕ × String)
  pub metric : ℕ
  pub interface_index : ℕ
  pub protocol : String
  pub scope : String
  pub route_type : String
  pub table : String

-- IPRule
pub record IpRule (Prefix Int : Type 0) : Type 0 where
  pub priority : Int
  pub from : Prefix
  pub to : Prefix
  pub iif : String
  pub oif : String
  pub table : String
  pub action : String
  pub mark : ℕ
  pub mask : ℕ
  pub tun_id : ℕ
  pub goto_priority : ℕ
  pub flow : ℕ
  pub suppress_plen : Int
  pub suppress_ifl : Int
  pub invert : Bool

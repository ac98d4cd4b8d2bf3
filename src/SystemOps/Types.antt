-- ===== src/SystemOps/Types.antt =====
-- The data of go/internal/routemanager/systemops: rules, routes, next hops and error numbers.
use netbird_minimal.Common.{ℕ, String, Bool, true, false, Option}

-- netlink.FAMILY_V4 and netlink.FAMILY_V6
pub data Family : Type 0 where
  v4 v6 : Family

pub Family-discrete : Discrete Family
Family-discrete = hlevel

-- the error numbers that the code looks at, and any other
pub data Errno : Type 0 where
  eexist esrch enoent eafnosupport eopnotsupp : Errno
  other : ℕ → Errno

abbrev pub rt_table_unspec : ℕ
rt_table_unspec = 0

abbrev pub rt_table_default : ℕ
rt_table_default = 253

abbrev pub rt_table_main : ℕ
rt_table_main = 254

abbrev pub rt_table_local : ℕ
rt_table_local = 255

-- NetbirdVPNTableID
abbrev pub netbird_vpn_table_id : ℕ
netbird_vpn_table_id = 0x1BD0

abbrev pub rtn_unreachable : ℕ
rtn_unreachable = 7

abbrev pub scope_universe : ℕ
scope_universe = 0

-- ruleParams; `none` for the suppressed prefix length is -1
pub record RuleParams : Type 0 where
  pub priority : ℕ
  pub fwmark : ℕ
  pub table_id : ℕ
  pub family : Family
  pub invert : Bool
  pub suppress_prefix : Option ℕ
  pub description : String

-- the fields of netlink.Rule that addRule and removeRule set
pub record Rule : Type 0 where
  pub table : ℕ
  pub mark : ℕ
  pub family : Family
  pub priority : ℕ
  pub invert : Bool
  pub suppress_prefixlen : Option ℕ

-- the fields of netlink.Route that the code sets or reads, over the types of a network and of an
-- address; 0 is the link index that is not set
pub record NlRoute (IpNet Addr : Type 0) : Type 0 where
  pub route_type : ℕ
  pub scope : ℕ
  pub table : ℕ
  pub family : Family
  pub dst : Option IpNet
  pub gw : Option Addr
  pub src : Option Addr
  pub link_index : ℕ

-- Nexthop: an address, and the index of an interface
pub record Nexthop (Addr : Type 0) : Type 0 where
  pub ip : Addr
  pub intf : Option ℕ

-- the errors that the functions return; `context` is fmt.Errorf around another
pub data SysError : Type 0 where
  route_not_allowed : SysError
  parse_prefix : SysError
  link_by_name : String → SysError
  netlink : Errno → SysError
  list_routes : SysError
  sysctl : SysError
  file_error : String → SysError
  table_id_exists : SysError
  legacy : SysError
  context : String → SysError → SysError

-- isOpErr
unfoldable pub is_op_err : Errno → Bool
is_op_err eafnosupport = true
is_op_err eopnotsupp = true
is_op_err _ = false

abbrev pub is_eexist : Errno → Bool
is_eexist eexist = true
is_eexist _ = false

abbrev pub is_esrch : Errno → Bool
is_esrch esrch = true
is_esrch _ = false

abbrev pub is_enoent : Errno → Bool
is_enoent enoent = true
is_enoent _ = false

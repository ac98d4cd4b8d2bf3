-- ===== src/Configurer/WgEnv.antt =====
-- What go/iface/configurer/usp.go calls: the WireGuard device, wgtypes, the network types of the
-- standard library, and its conversions between texts and numbers.
use Prim.Native.String.{◌++◌ as append}
use netbird_minimal.Common.{
  ℕ, ◌-◌, ◌%◌, ◌^◌, ◌<◌, String, Bool, true, ◌||◌, Option, some, List, ◌≡◌, ◌==◌, All, length,
}
use netbird_minimal.Common.Split.{is_space, lacks}

-- int and int64, with their sign
pub data ℤ : Type 0 where
  pos : ℕ → ℤ
  negsuc : ℕ → ℤ

-- uint16 of an int
abbrev pub to_uint16 : ℤ → ℕ
to_uint16 (pos n) = n % 2 ^ 16
to_uint16 (negsuc n) = 2 ^ 16 - 1 - n % 2 ^ 16

-- The range of int and int64.
abbrev pub IsInt64 : ℤ → Type 0
IsInt64 (pos n) = n < 2 ^ 63
IsInt64 (negsuc n) = n < 2 ^ 63

-- [32]byte, by its bytes
abbrev pub Key : Type 0
Key = List ℕ

-- 32 bytes.
abbrev pub IsKey32 : Key → Type 0
IsKey32 k = (length k ≡ 32) × All (λ b. b < 256) k

-- a colon or a bracket
abbrev pub is_mark : ℕ → Bool
is_mark c = c == b':' || (c == b'[' || c == b']')

-- net.UDPAddr
pub record UdpAddr (Ip : Type 0) : Type 0 where
  pub ip : Ip
  pub port : ℤ

pub record WgEnv : Type 1 where
  -- strconv.ParseInt(s, 10, 64) and strconv.Atoi, and the verb %d
  pub parse_int : String → Option ℤ
  pub format_int : ℤ → String
  -- encoding/hex, and base64.StdEncoding.EncodeToString, which is also Key.String
  pub hex_decode : String → Option (List ℕ)
  pub hex_encode : List ℕ → String
  pub base64 : List ℕ → String
  -- wgtypes: ParseKey and Key.PublicKey
  pub parse_key : String → Option Key
  pub public_of : Key → Key
  -- net.IPNet: ParseCIDR and String
  pub IpNet : Type 0
  pub parse_cidr : String → Option IpNet
  pub ip_net_string : IpNet → String
  -- netip.Prefix: String, and the net.IPNet of its address and its bits
  pub Prefix : Type 0
  pub prefix_string : Prefix → String
  pub to_ip_net : Prefix → IpNet
  -- net.IP, ParseIP and SplitHostPort, and netip.ParseAddr of the text of an address
  pub Ip : Type 0
  pub no_ip : Ip
  pub parse_ip : String → Ip
  -- IP.To4 is not nil, and IP.String
  pub is_v4 : Ip → Bool
  pub ip_string : Ip → String
  pub split_host_port : String → Option (String × String)
  pub udp_string : UdpAddr Ip → String
  pub Addr : Type 0
  pub parse_addr : Ip → Option Addr
  -- nbnet.AdvancedRouting() on Linux, and nbnet.ControlPlaneMark
  pub advanced_routing : Bool
  pub control_plane_mark : ℤ
  -- device.Device: IpcGet, and IpcSet, whose Boolean says that it failed
  pub World : Type 0
  pub ipc_get : World → Option String
  pub ipc_set : String → World → Bool × World
  -- the activity recorder
  pub upsert_address : String → Addr → ℕ → World → World
  pub remove_activity : String → World → World

-- What these document: what is printed is read back, and has no white space; a number and an IPv4
-- address are printed without colons and brackets, and an endpoint of one with a colon between them,
-- which SplitHostPort cuts. Addresses count by IP.Equal.
pub record WgLaws (env : WgEnv) : Type 0 where
  pub int_lem : (n : ℤ) → IsInt64 n → env.parse_int (env.format_int n) ≡ some n
  pub hex_lem : (k : Key) → All (λ b. b < 256) k → env.hex_decode (env.hex_encode k) ≡ some k
  pub int_lacks : (n : ℤ) → lacks is_space (env.format_int n) ≡ true
  pub hex_lacks : (k : Key) → lacks is_space (env.hex_encode k) ≡ true
  pub ip_net_lacks : (n : env.IpNet) → lacks is_space (env.ip_net_string n) ≡ true
  pub udp_lacks : (a : UdpAddr env.Ip) → lacks is_space (env.udp_string a) ≡ true
  pub int_plain : (n : ℤ) → lacks is_mark (env.format_int n) ≡ true
  pub v4_plain : (a : env.Ip) → env.is_v4 a ≡ true → lacks is_mark (env.ip_string a) ≡ true
  pub parse_v4 : (a : env.Ip) → env.is_v4 a ≡ true → env.parse_ip (env.ip_string a) ≡ a
  pub udp_v4 :
      (a : UdpAddr env.Ip)
      → env.is_v4 a.ip ≡ true
      → env.udp_string a ≡ append (env.ip_string a.ip) (String.◌∷◌ ":" (env.format_int a.port))
  pub split_lem :
      (host port : String)
      → lacks is_mark host ≡ true
      → lacks is_mark port ≡ true
      → env.split_host_port (append host (String.◌∷◌ ":" port)) ≡ some (host, port)

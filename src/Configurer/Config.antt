-- ===== src/Configurer/Config.antt =====
-- The configuration that the device is given: toWgUserspaceString of go/iface/configurer/usp.go,
-- with the fields of wgtypes.Config that it reads.
pub mod Printed
pub mod Solid
pub mod UpdateOnly
use Prim.Native.String.{◌++◌ as append}
use netbird_minimal.Common.{
  ℕ, zero, suc, ◌+◌, ◌/◌, ◌^◌, String, Bool, true, false, Option, none, some, List, [], ◌∷◌,
  if◌then◌else◌,
}
use netbird_minimal.Configurer.WgEnv.{ℤ, pos, negsuc, Key, UdpAddr, WgEnv}

-- int(d.Seconds()) of a duration in nanoseconds
abbrev pub whole_seconds : ℤ → ℤ
whole_seconds (pos n) = pos (n / 10 ^ 9)
whole_seconds (negsuc n) = elim ((n + 1) / 10 ^ 9) [ zero ↦ pos 0 | suc k ↦ negsuc k ]

-- wgtypes.PeerConfig; the interval is in nanoseconds
pub record WgPeerConfig (IpNet Ip : Type 0) : Type 0 where
  pub public_key : Key
  pub remove : Bool
  pub update_only : Bool
  pub preshared_key : Option Key
  pub endpoint : Option (UdpAddr Ip)
  pub persistent_keepalive_interval : Option ℤ
  pub replace_allowed_ips : Bool
  pub allowed_ips : List IpNet

-- wgtypes.Config
pub record WgConfig (IpNet Ip : Type 0) : Type 0 where
  pub private_key : Option Key
  pub listen_port : Option ℤ
  pub replace_peers : Bool
  pub firewall_mark : Option ℤ
  pub peers : List (WgPeerConfig IpNet Ip)

-- "key=value\n" in front of the rest
abbrev pub put : String → String → String → String
put key val rest = append key (append "=" (append val (append "\n" rest)))

module _ (env : WgEnv) where
  open env use {IpNet, Ip, format_int, hex_encode, ip_net_string, udp_string}

  -- such a line for a value that there is
  abbrev pub put_opt : {A : Type 0} → String → (A → String) → Option A → String → String
  put_opt key show none rest = rest
  put_opt key show (some a) rest = put key (show a) rest

  unfoldable pub put_allowed_ips : List IpNet → String → String
  put_allowed_ips [] rest = rest
  put_allowed_ips (n ∷ ns) rest = put "allowed_ip" (ip_net_string n) (put_allowed_ips ns rest)

  -- the body of the loop over the peers; "remove=true" has no end of line
  unfoldable pub put_peer : WgPeerConfig IpNet Ip → String → String
  unfolding put_allowed_ips
  put_peer p rest =
      let tail = put_allowed_ips p.allowed_ips (
        put_opt "endpoint" udp_string p.endpoint (
          put_opt "persistent_keepalive_interval" (λ d. format_int (whole_seconds d))
            p.persistent_keepalive_interval rest)) in
      let replaced =
        if p.replace_allowed_ips then put "replace_allowed_ips" "true" tail else tail in
      put "public_key" (hex_encode p.public_key) (
        put_opt "preshared_key" hex_encode p.preshared_key
          (if p.remove then append "remove=true" replaced else replaced))

  unfoldable pub put_peers : List (WgPeerConfig IpNet Ip) → String
  unfolding put_peer
  put_peers [] = ""
  put_peers (p ∷ ps) = put_peer p (put_peers ps)

  -- toWgUserspaceString
  unfoldable pub to_wg_userspace_string : WgConfig IpNet Ip → String
  unfolding put_peers
  to_wg_userspace_string c =
      let marked = put_opt "fwmark" format_int c.firewall_mark (put_peers c.peers) in
      put_opt "private_key" hex_encode c.private_key (
        put_opt "listen_port" format_int c.listen_port
          (if c.replace_peers then put "replace_peers" "true" marked else marked))

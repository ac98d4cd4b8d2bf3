-- ===== src/Configurer/Device.antt =====
-- The operations on the device: WGUSPConfigurer of go/iface/configurer/usp.go.
pub mod Report
pub mod Restores
pub mod Unknown
use Prim.Native.String.{◌++◌ as append}
use netbird_minimal.Common.{
  String, Bool, true, false, not, ◌&&◌, Option, none, some, List, [], ◌∷◌, ◌++◌, map, if◌then◌else◌,
  str_eq, is_some,
}
use netbird_minimal.Common.Outcome.{ok, err, panic, Act}
use netbird_minimal.Common.Split.{split_on, trim_space, behind_prefix}
use netbird_minimal.Configurer.WgEnv.{ℤ, pos, to_uint16, Key, UdpAddr, WgEnv}
use netbird_minimal.Configurer.Status.{Peer, Stats, parse_status}
use netbird_minimal.Configurer.Config.{WgPeerConfig, WgConfig, to_wg_userspace_string}

pub data WgError : Type 0 where
  bad_key ipc_get_failed ipc_set_failed bad_endpoint : WgError
  peer_not_found bad_allowed_ip allowed_ip_not_found : WgError

module _ (env : WgEnv) where
  open env use {IpNet, Ip, Prefix, World, parse_key, ipc_get}

  abbrev pub Op : Type 0
  Op = Act World WgError (Unit {0})

  abbrev pub peer_config : Key → WgPeerConfig IpNet Ip
  peer_config key = record {
    public_key = key;
    remove = false;
    update_only = false;
    preshared_key = none;
    endpoint = none;
    persistent_keepalive_interval = none;
    replace_allowed_ips = false;
    allowed_ips = [];
  }

  abbrev pub peers_config : List (WgPeerConfig IpNet Ip) → WgConfig IpNet Ip
  peers_config ps = record {
    private_key = none;
    listen_port = none;
    replace_peers = false;
    firewall_mark = none;
    peers = ps;
  }

  -- c.device.IpcSet(toWgUserspaceString(config))
  unfoldable pub set_config : WgConfig IpNet Ip → Op
  set_config c w =
      let (failed, w') = env.ipc_set (to_wg_userspace_string env c) w in
      (if failed then err ipc_set_failed else ok tt, w')

  -- getFwmark
  unfoldable pub get_fwmark : ℤ
  get_fwmark = if env.advanced_routing then env.control_plane_mark else pos 0

  -- ConfigureInterface
  unfoldable pub configure_interface : String → ℤ → Op
  unfolding set_config get_fwmark
  configure_interface private_key port w = elim (parse_key private_key) [
    | none ↦ (err bad_key, w)
    | some key ↦
        set_config
          (record {
            private_key = some key;
            listen_port = some port;
            replace_peers = true;
            firewall_mark = some get_fwmark;
            peers = [];
          })
          w
  ]

  -- the end of UpdatePeer: the endpoint is told to the activity recorder
  unfoldable pub record_endpoint : String → Option (UdpAddr Ip) → Op
  record_endpoint peer_key none w = (ok tt, w)
  record_endpoint peer_key (some endpoint) w = elim (env.parse_addr endpoint.ip) [
    | none ↦ (err bad_endpoint, w)
    | some addr ↦ (ok tt, env.upsert_address peer_key addr (to_uint16 endpoint.port) w)
  ]

  -- UpdatePeer
  unfoldable pub update_peer : String → List Prefix → ℤ → Option (UdpAddr Ip) → Option Key → Op
  unfolding set_config record_endpoint
  update_peer peer_key allowed_ips keep_alive endpoint pre_shared_key w =
      elim (parse_key peer_key) [
        | none ↦ (err bad_key, w)
        | some key ↦
            let peer : WgPeerConfig IpNet Ip = record (peer_config key) {
              allowed_ips = map env.to_ip_net allowed_ips;
              persistent_keepalive_interval = some keep_alive;
              preshared_key = pre_shared_key;
              endpoint = endpoint;
            } in
            let (o, w1) = set_config (peers_config (peer ∷ [])) w in
            elim o [
              | ok u ↦ record_endpoint peer_key endpoint w1
              | err e ↦ (err e, w1)
              | panic ↦ (panic, w1)
            ]
      ]

  -- the loop of RemoveEndpointAddress
  unfoldable pub find_peer : String → List (Peer IpNet Ip) → Option (Peer IpNet Ip)
  find_peer k [] = none
  find_peer k (p ∷ ps) = if str_eq p.public_key k then some p else find_peer k ps

  -- RemoveEndpointAddress
  unfoldable pub remove_endpoint_address : String → String → Op
  unfolding set_config find_peer
  remove_endpoint_address device_name peer_key w = elim (parse_key peer_key) [
    | none ↦ (err bad_key, w)
    | some key ↦ elim (ipc_get w) [
      | none ↦ (err ipc_get_failed, w)
      | some ipc_str ↦ elim (find_peer peer_key (parse_status env device_name ipc_str).peers) [
        | none ↦ (err peer_not_found, w)
        | some p ↦
            let removed : WgPeerConfig IpNet Ip = record (peer_config key) { remove = true } in
            let (o, w1) = set_config (peers_config (removed ∷ [])) w in
            let added : WgPeerConfig IpNet Ip = record (peer_config key) {
              replace_allowed_ips = true;
              allowed_ips = p.allowed_ips;
            } in
            elim o [
              | ok u ↦ set_config (peers_config (added ∷ [])) w1
              | err e ↦ (err e, w1)
              | panic ↦ (panic, w1)
            ]
      ]
    ]
  ]

  -- RemovePeer: the recorder forgets the peer also where the device fails
  unfoldable pub remove_peer : String → Op
  unfolding set_config
  remove_peer peer_key w = elim (parse_key peer_key) [
    | none ↦ (err bad_key, w)
    | some key ↦
        let (o, w1) =
          set_config (peers_config (record (peer_config key) { remove = true } ∷ [])) w in
        (o, env.remove_activity peer_key w1)
  ]

  -- AddAllowedIP
  unfoldable pub add_allowed_ip : String → Prefix → Op
  unfolding set_config
  add_allowed_ip peer_key allowed_ip w = elim (parse_key peer_key) [
    | none ↦ (err bad_key, w)
    | some key ↦
        set_config
          (peers_config (
            record (peer_config key) {
              update_only = true;
              allowed_ips = env.to_ip_net allowed_ip ∷ [];
            }
            ∷ []))
          w
  ]

  -- The loop of RemoveAllowedIP: whether the lines are those of the peer, whether the address was
  -- found, and the other addresses of the peer.
  pub record Scan : Type 0 where
    pub found_peer : Bool
    pub removed_allowed_ip : Bool
    pub allowed_ips : List IpNet

  -- the body of the loop, `none` for an error
  unfoldable pub scan_line : String → String → String → Scan → Option Scan
  scan_line hex_key ip line s =
      let found =
        if str_eq line (append "public_key=" hex_key)
        then true
        else s.found_peer && not (is_some (behind_prefix "public_key=" line)) in
      let s1 : Scan = record s { found_peer = found } in
      if found && str_eq line (append "allowed_ip=" ip)
      then some (record s1 { removed_allowed_ip = true })
      else (if not found then some s1 else (elim (behind_prefix "allowed_ip=" line) [
        | none ↦ some s1
        | some str ↦ elim (env.parse_cidr str) [
          | none ↦ none
          | some n ↦ some (record s1 { allowed_ips = s1.allowed_ips ++ (n ∷ []) })
        ]
      ]))

  unfoldable pub scan_lines : String → String → List String → Scan → Option Scan
  unfolding scan_line
  scan_lines hex_key ip [] s = some s
  scan_lines hex_key ip (l ∷ ls) s = elim (scan_line hex_key ip (trim_space l) s) [
    | none ↦ none
    | some s' ↦ scan_lines hex_key ip ls s'
  ]

  abbrev pub no_scan : Scan
  no_scan = record { found_peer = false; removed_allowed_ip = false; allowed_ips = [] }

  -- RemoveAllowedIP
  unfoldable pub remove_allowed_ip : String → Prefix → Op
  unfolding set_config scan_lines
  remove_allowed_ip peer_key allowed_ip w = elim (ipc_get w) [
    | none ↦ (err ipc_get_failed, w)
    | some ipc ↦ elim (parse_key peer_key) [
      | none ↦ (err bad_key, w)
      | some key ↦
          elim (scan_lines (env.hex_encode key) (env.prefix_string allowed_ip) (split_on b'\n' ipc)
            no_scan) [
              | none ↦ (err bad_allowed_ip, w)
              | some s ↦
                  if not s.removed_allowed_ip
                  then (err allowed_ip_not_found, w)
                  else set_config
                      (peers_config (
                        record (peer_config key) {
                          update_only = true;
                          replace_allowed_ips = true;
                          allowed_ips = s.allowed_ips;
                        }
                        ∷ []))
                      w
            ]
    ]
  ]

  -- FullStats
  unfoldable pub full_stats : String → World → Option (Stats IpNet Ip)
  full_stats device_name w = elim (ipc_get w) [
    | none ↦ none
    | some ipc_str ↦ some (parse_status env device_name ipc_str)
  ]

-- ===== src/Configurer/Kernel.antt =====
-- The configurer of the WireGuard device of the kernel: go/iface/configurer/kernel_unix.go. A client
-- of wgctrl is closed when the function that opened it returns.
pub mod Allowed
mod Tests
use netbird_minimal.Common.{
  ℕ, String, Bool, true, false, not, ◌&&◌, ◌==◌, Option, none, some, List, [], ◌∷◌, ◌++◌, map,
  if◌then◌else◌, str_eq,
}
use netbird_minimal.Common.Dict.{Dict, insert}
use netbird_minimal.Common.Outcome.{Outcome, ok, err, panic, Act, and_then}
use netbird_minimal.Configurer.WgEnv.{ℤ, pos, Key, UdpAddr, WgEnv}
use netbird_minimal.Configurer.Status.{Peer, Stats, WgStats, Time}
use netbird_minimal.Configurer.Config.{WgPeerConfig, WgConfig}
use netbird_minimal.Configurer.Device.{peer_config, peers_config, get_fwmark}

-- wgtypes.Peer
pub record WgPeer (IpNet Ip : Type 0) : Type 0 where
  pub public_key : Key
  pub preshared_key : Key
  pub endpoint : Option (UdpAddr Ip)
  pub allowed_ips : List IpNet
  pub transmit_bytes : ℤ
  pub receive_bytes : ℤ
  pub last_handshake_time : Time

-- whether a key is zeroKey
abbrev pub is_zero_key : Key → Bool
is_zero_key [] = true
is_zero_key (b ∷ bs) = b == 0 && is_zero_key bs

-- wgtypes.Device
pub record WgDevice (IpNet Ip : Type 0) : Type 0 where
  pub name : String
  pub public_key : Key
  pub listen_port : ℤ
  pub firewall_mark : ℤ
  pub peers : List (WgPeer IpNet Ip)

-- wgctrl: New and ConfigureDevice with whether they failed, Close, and Device of the configurer's name
pub record KernelEnv (env : WgEnv) : Type 0 where
  pub new_client : env.World → Bool × env.World
  pub close_client : env.World → env.World
  pub device : env.World → Option (WgDevice env.IpNet env.Ip)
  pub configure_device : WgConfig env.IpNet env.Ip → env.World → Bool × env.World

pub data KernelError : Type 0 where
  bad_key no_client no_device configure_failed peer_not_found : KernelError

module _ (env : WgEnv) (kernel : KernelEnv env) where
  open env use {IpNet, Ip, Prefix, World, parse_key, ip_net_string, to_ip_net, base64}

  abbrev pub Op : Type 0 → Type 0
  Op A = Act World KernelError A

  -- a client, the device, and what is done with it
  abbrev pub with_device : {A : Type 0} → (WgDevice IpNet Ip → Op A) → Op A
  with_device f w =
      let (failed, w1) = kernel.new_client w in
      if failed then (err no_client, w1) else (elim (kernel.device w1) [
        | none ↦ (err no_device, kernel.close_client w1)
        | some d ↦ let (o, w2) = f d w1 in (o, kernel.close_client w2)
      ])

  -- configure
  unfoldable pub configure : WgConfig IpNet Ip → Op (Unit {0})
  configure c = with_device (λ d w.
      let (failed, w') = kernel.configure_device c w in
      (if failed then err configure_failed else ok tt, w'))

  -- the loop of getPeer
  unfoldable pub peer_at : String → List (WgPeer IpNet Ip) → Outcome KernelError (WgPeer IpNet Ip)
  peer_at k [] = err peer_not_found
  peer_at k (p ∷ ps) = if str_eq (base64 p.public_key) k then ok p else peer_at k ps

  -- getPeer
  unfoldable pub get_peer : String → Op (WgPeer IpNet Ip)
  unfolding peer_at
  get_peer k = with_device (λ d w. (peer_at k d.peers, w))

  -- the key, or the error of ParseKey
  abbrev pub with_key : String → (Key → Op (Unit {0})) → Op (Unit {0})
  with_key s f w = elim (parse_key s) [ none ↦ (err bad_key, w) | some key ↦ f key w ]

  -- ConfigureInterface
  unfoldable pub configure_interface : String → ℤ → Op (Unit {0})
  unfolding configure
  configure_interface private_key port = with_key private_key (λ key. configure (record {
    private_key = some key;
    listen_port = some port;
    replace_peers = true;
    firewall_mark = some (get_fwmark env);
    peers = [];
  }))

  -- UpdatePeer
  unfoldable pub update_peer :
      String → List Prefix → ℤ → Option (UdpAddr Ip) → Option Key → Op (Unit {0})
  unfolding configure
  update_peer peer_key allowed_ips keep_alive endpoint pre_shared_key = with_key peer_key (λ key.
      configure (
        peers_config env (
          record (peer_config env key) {
            allowed_ips = map to_ip_net allowed_ips;
            persistent_keepalive_interval = some keep_alive;
            endpoint = endpoint;
            preshared_key = pre_shared_key;
          }
          ∷ [])))

  -- RemoveEndpointAddress
  unfoldable pub remove_endpoint_address : String → Op (Unit {0})
  unfolding configure get_peer
  remove_endpoint_address peer_key = with_key peer_key (λ key w.
      and_then (get_peer peer_key w) (λ p w1.
        and_then
          (configure (peers_config env (record (peer_config env key) { remove = true } ∷ [])) w1)
          (λ _. configure (
            peers_config env (
              record (peer_config env key) {
                allowed_ips = p.allowed_ips;
                replace_allowed_ips = true;
              }
              ∷ [])))))

  -- RemovePeer
  unfoldable pub remove_peer : String → Op (Unit {0})
  unfolding configure
  remove_peer peer_key =
      with_key peer_key
        (λ key. configure (peers_config env (record (peer_config env key) { remove = true } ∷ [])))

  -- AddAllowedIP
  unfoldable pub add_allowed_ip : String → Prefix → Op (Unit {0})
  unfolding configure
  add_allowed_ip peer_key allowed_ip = with_key peer_key (λ key. configure (
      peers_config env (
        record (peer_config env key) { update_only = true; allowed_ips = to_ip_net allowed_ip ∷ [] }
        ∷ [])))

  -- the loop of RemoveAllowedIP
  unfoldable pub without_ip : IpNet → List IpNet → List IpNet
  without_ip n [] = []
  without_ip n (m ∷ ms) =
      let rest = without_ip n ms in
      if str_eq (ip_net_string m) (ip_net_string n) then ms else m ∷ rest

  -- RemoveAllowedIP: an address that the peer does not have is no error
  unfoldable pub remove_allowed_ip : String → Prefix → Op (Unit {0})
  unfolding configure get_peer without_ip
  remove_allowed_ip peer_key allowed_ip = with_key peer_key (λ key w.
      and_then (get_peer peer_key w) (λ p. configure (
        peers_config env (
          record (peer_config env key) {
            update_only = true;
            replace_allowed_ips = true;
            allowed_ips = without_ip (to_ip_net allowed_ip) p.allowed_ips;
          }
          ∷ []))))

  -- the loop of FullStats
  unfoldable pub to_peer : WgPeer IpNet Ip → Peer IpNet Ip
  to_peer p = record {
    public_key = base64 p.public_key;
    endpoint = elim p.endpoint [ none ↦ record { ip = env.no_ip; port = pos 0 } | some e ↦ e ];
    allowed_ips = p.allowed_ips;
    tx_bytes = p.transmit_bytes;
    rx_bytes = p.receive_bytes;
    last_handshake = p.last_handshake_time;
    preshared_key = not (is_zero_key p.preshared_key);
  }

  -- FullStats
  unfoldable pub full_stats : Op (Stats IpNet Ip)
  unfolding to_peer
  full_stats = with_device (λ d w. (
    ok (record {
      device_name = d.name;
      public_key = base64 d.public_key;
      listen_port = d.listen_port;
      fw_mark = d.firewall_mark;
      peers = map to_peer d.peers;
    }),
    w,
  ))

  -- the loop of GetStats
  unfoldable pub stats_by_key : List (WgPeer IpNet Ip) → Dict WgStats → Dict WgStats
  stats_by_key [] stats = stats
  stats_by_key (p ∷ ps) stats = stats_by_key ps (
      insert (base64 p.public_key)
        (record {
          last_handshake = p.last_handshake_time;
          tx_bytes = p.transmit_bytes;
          rx_bytes = p.receive_bytes;
        })
        stats)

  -- GetStats
  unfoldable pub get_stats : Op (Dict WgStats)
  unfolding stats_by_key
  get_stats = with_device (λ d w. (ok (stats_by_key d.peers []), w))

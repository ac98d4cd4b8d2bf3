-- ===== src/Engine/Peers.antt =====
-- The peers of the engine, go/internal/engine.go: removePeers, modifyPeers, addNewPeers and what
-- they call. The world behind the calls is the state; an error or a panic ends a method where it
-- happens, and what was done before stays done.
pub mod Store
pub mod Adding
pub mod Sync
pub mod Current
pub mod Errors
pub mod Sample
mod Tests
use netbird_minimal.Common.{
  ℕ, ◌+◌, ◌-◌, String, Bool, true, false, not, Option, none, some, List, [], ◌∷◌, map,
  if◌then◌else◌, is_some, str_eq,
}
use netbird_minimal.Common.Outcome.{Outcome, ok, err, panic, Act, and_then, each}
use netbird_minimal.Engine.Netip.{Netip}
use netbird_minimal.Engine.NetIpLists.{compare_net_ip_lists}
use netbird_minimal.Engine.PeerEnv.{RemotePeerConfig, ConnConfig, PeerEnv}

abbrev pub peer_connection_timeout_max : ℕ
peer_connection_timeout_max = 45000

abbrev pub peer_connection_timeout_min : ℕ
peer_connection_timeout_min = 30000

-- the errors that addNewPeer returns
pub data PeerError : Type 0 where
  bad_allowed_ips : PeerError
  create_peer_connection : PeerError
  peer_already_exists : String → PeerError

-- the fields of EngineConfig, and of the Rosenpass manager, that a connection is made from
pub record PeerConfig : Type 0 where
  pub wg_port : ℕ
  pub local_key : String
  pub pre_shared_key : Option String
  pub rosenpass_permissive : Bool
  -- e.rpManager: its public key and address
  pub rp_manager : Option (String × String)

-- getRosenpassPubKey
unfoldable pub get_rosenpass_pub_key : PeerConfig → Option String
get_rosenpass_pub_key cfg = elim cfg.rp_manager [ none ↦ none | some m ↦ some m.0 ]

-- getRosenpassAddr
unfoldable pub get_rosenpass_addr : PeerConfig → String
get_rosenpass_addr cfg = elim cfg.rp_manager [ none ↦ "" | some m ↦ m.1 ]

module _ (net : Netip) (env : PeerEnv net) (cfg : PeerConfig) where
  open net use {Prefix, parse_prefix, addr_string}
  open env use {
    World, Conn, IceConfig, peer_conn, peers_pub_key, stored_ips, agent_version_string,
    set_on_connected, set_on_disconnected, close_conn, new_conn, intn, create_ice_config,
    add_peer_conn, remove_peer_conn, status_add_peer, status_remove_peer, status_update_fqdn,
    slice_diff,
  }

  abbrev pub Call : Type 0
  Call = Act World PeerError (Unit {0})

  -- the configuration that createPeerConn builds
  unfoldable pub conn_config :
      String → List Prefix → String → ℕ → IceConfig → ConnConfig Prefix IceConfig
  unfolding get_rosenpass_pub_key get_rosenpass_addr
  conn_config pub_key ips version timeout ice = record {
    key = pub_key;
    local_key = cfg.local_key;
    agent_version = version;
    timeout_ms = timeout;
    remote_key = pub_key;
    wg_listen_port = cfg.wg_port;
    allowed_ips = ips;
    pre_shared_key = cfg.pre_shared_key;
    local_wg_port = cfg.wg_port;
    rosenpass_pub_key = get_rosenpass_pub_key cfg;
    rosenpass_addr = get_rosenpass_addr cfg;
    permissive_mode = cfg.rosenpass_permissive;
    ice_config = ice;
  }

  -- createPeerConn
  unfoldable pub create_peer_conn : String → List Prefix → String → Act World PeerError Conn
  create_peer_conn pub_key ips version w =
      let (r, w1) = intn (peer_connection_timeout_max - peer_connection_timeout_min) w in
      let timeout = r + peer_connection_timeout_min in
      elim (new_conn (conn_config pub_key ips version timeout (create_ice_config w1)) w1) [
        | none ↦ (err create_peer_connection, w1)
        | some conn ↦ (
          ok (if is_some cfg.rp_manager then set_on_disconnected (set_on_connected conn) else conn),
          w1,
        )
      ]

  -- the loop over the allowed IPs of addNewPeer
  unfoldable pub parse_allowed_ips : List String → Option (List Prefix)
  parse_allowed_ips [] = some []
  parse_allowed_ips (s ∷ ss) = elim (parse_prefix s) [
    | none ↦ none
    | some p ↦ elim (parse_allowed_ips ss) [ none ↦ none | some ps ↦ some (p ∷ ps) ]
  ]

  -- from the call of AddPeer on; `peerIPs[0]` panics when there is no allowed IP
  unfoldable pub register_peer : RemotePeerConfig → List Prefix → Conn → Call
  register_peer p [] conn w = (panic, w)
  register_peer p (ip ∷ ips) conn w =
      let w1 = status_add_peer p.wg_pub_key p.fqdn (addr_string ip) w in
      let (exists, w2) = add_peer_conn p.wg_pub_key conn w1 in
      if exists then (err (peer_already_exists p.wg_pub_key), close_conn conn w2) else (ok tt, w2)

  -- addNewPeer
  unfoldable pub add_new_peer : RemotePeerConfig → Call
  unfolding parse_allowed_ips register_peer
  add_new_peer p w =
      if is_some (peer_conn w p.wg_pub_key)
      then (ok tt, w)
      else elim (parse_allowed_ips p.allowed_ips) [
        | none ↦ (err bad_allowed_ips, w)
        | some ips ↦
            and_then (create_peer_conn p.wg_pub_key ips p.agent_version w)
              (λ conn. register_peer p ips conn)
      ]

  -- addNewPeers
  unfoldable pub add_new_peers : List RemotePeerConfig → Call
  add_new_peers = each add_new_peer

  -- removePeer
  unfoldable pub remove_peer : String → Call
  remove_peer key w = (ok tt, status_remove_peer key (remove_peer_conn key w))

  -- removeAllPeers
  unfoldable pub remove_all_peers : Call
  remove_all_peers w = each remove_peer (peers_pub_key w) w

  -- removePeers
  unfoldable pub remove_peers : List RemotePeerConfig → Call
  remove_peers update w =
      each remove_peer (slice_diff (peers_pub_key w) (map (λ p. p.wg_pub_key) update)) w

  -- one round of the first loop of modifyPeers: whether the peer is modified
  unfoldable pub inspect : RemotePeerConfig → World → Bool × World
  inspect p w = elim (peer_conn w p.wg_pub_key) [
    | none ↦ (false, w)
    | some conn ↦
        if not (str_eq (agent_version_string conn) p.agent_version)
        then (true, w)
        else elim (stored_ips w p.wg_pub_key) [
          | none ↦ (false, w)
          | some ips ↦
              if not (compare_net_ip_lists net ips p.allowed_ips)
              then (true, w)
              else (false, status_update_fqdn p.wg_pub_key p.fqdn w)
        ]
  ]

  -- the first loop of modifyPeers
  unfoldable pub collect_modified : List RemotePeerConfig → World → List RemotePeerConfig × World
  collect_modified [] w = ([], w)
  collect_modified (p ∷ ps) w =
      let (changed, w1) = inspect p w in
      let (rest, w2) = collect_modified ps w1 in (if changed then p ∷ rest else rest, w2)

  -- modifyPeers
  unfoldable pub modify_peers : List RemotePeerConfig → Call
  modify_peers update w =
      let (modified, w1) = collect_modified update w in
      and_then (each remove_peer (map (λ p. p.wg_pub_key) modified) w1)
        (λ _. each add_new_peer modified)

  -- the peers of a network map in updateNetworkMap: removed, modified, added
  unfoldable pub apply_peers : List RemotePeerConfig → Call
  apply_peers update w =
      and_then (remove_peers update w)
        (λ _ w1. and_then (modify_peers update w1) (λ _. add_new_peers update))

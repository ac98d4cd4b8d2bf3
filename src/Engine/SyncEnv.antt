-- ===== src/Engine/SyncEnv.antt =====
-- What the handling of a sync response calls: the other parts of the client and the standard
-- library, over the world of the peer store.
use netbird_minimal.Common.{ℕ, String, Bool, Option, List}
use netbird_minimal.Engine.Netip.{Netip}
use netbird_minimal.Engine.PeerEnv.{RemotePeerConfig, PeerEnv}
use netbird_minimal.Engine.Messages.{Check, NetbirdConfig}
use netbird_minimal.Engine.Converted.{
  Route, ForwarderEntry, DnsConfig, FlowLoggerConfig, ForwardRule, OfflinePeer,
}

-- A Boolean beside a world says that the call failed.
pub record SyncEnv {net : Netip} (peers : PeerEnv net) : Type 1 where
  pub SshConfig : Type 0
  pub PortMessage : Type 0
  -- stun.URI: ParseURI, and the credentials of a TURN server
  pub Uri : Type 0
  pub parse_uri : String → Option Uri
  pub set_credentials : String → String → Uri → Uri
  pub store_stun_turn : List Uri → peers.World → peers.World
  -- the relay manager
  pub update_token : String → String → peers.World → Bool × peers.World
  pub update_server_urls : List String → peers.World → peers.World
  pub serve : peers.World → peers.World
  -- the flow manager
  pub update_flow : FlowLoggerConfig → peers.World → Bool × peers.World
  -- dnsServer.UpdateServerConfig of the domains of the configuration; its error is only logged
  pub update_server_config : NetbirdConfig → peers.World → peers.World
  -- system.GetInfoWithChecks, SetFlags and mgmClient.SyncMeta
  pub sync_meta : List Check → peers.World → Bool × peers.World
  -- the WireGuard interface
  pub wg_network : net.Prefix
  -- updateSSH, and the update of the local peer state by the FQDN
  pub update_ssh : SshConfig → peers.World → peers.World
  pub update_local_peer_state : String → peers.World → peers.World
  -- ConnMgr; errors are only logged
  pub updated_remote_feature_flag : Bool → peers.World → peers.World
  pub set_exclude_list : List String → peers.World → peers.World
  -- the firewall; errors are only logged
  pub update_local_ips : peers.World → peers.World
  pub set_legacy_management : Bool → peers.World → peers.World
  -- the DNS server; errors are only logged
  pub Addr : Type 0
  pub parse_addr : String → Option Addr
  pub forwarder_client_port : ℕ
  pub add_reverse_zone : DnsConfig Addr → net.Prefix → DnsConfig Addr
  pub update_dns_server : ℕ → DnsConfig Addr → peers.World → peers.World
  pub probe_availability : peers.World → peers.World
  -- the route manager: ClassifyRoutes and UpdateRoutes, and the manager of lazy connections
  pub masked : net.Prefix → net.Prefix
  pub no_prefix : net.Prefix
  pub from_punycode_list : List String → List String
  pub set_dns_forwarder_port : ℕ → peers.World → peers.World
  pub ServerRoutes : Type 0
  pub ClientRoutes : Type 0
  pub classify_routes : List (Route net.Prefix) → peers.World → ServerRoutes × ClientRoutes
  pub update_route_ha_map : ClientRoutes → peers.World → peers.World
  pub update_routes : ℕ → ServerRoutes → ClientRoutes → Bool → peers.World → peers.World
  -- acl.ApplyFiltering
  pub apply_filtering : Bool → peers.World → peers.World
  -- the DNS forwarder
  pub DomainSet : Type 0
  pub new_domain_set : List String → DomainSet
  pub get_resource_id : Route net.Prefix → String
  pub public_key : String
  pub Forwarder : Type 0
  pub new_forwarder : peers.World → Forwarder
  pub start_forwarder :
      Forwarder → List (ForwarderEntry DomainSet) → peers.World → Bool × peers.World
  pub stop_forwarder : Forwarder → peers.World → Bool × peers.World
  pub update_domains : Forwarder → List (ForwarderEntry DomainSet) → peers.World → peers.World
  -- the conversions of a forwarding rule, `none` for an error
  pub Protocol : Type 0
  pub Port : Type 0
  pub convert_protocol : ℕ → Option Protocol
  pub convert_port_info : PortMessage → Option Port
  pub convert_to_ip : String → Option Addr
  pub addr_string : Addr → String
  -- the ingress gateway manager
  pub new_ingress : peers.World → peers.World
  pub close_ingress : peers.World → Bool × peers.World
  pub unset_ingress : peers.World → peers.World
  pub update_ingress : List (ForwardRule Protocol Port Addr) → peers.World → peers.World
  -- the status recorder
  pub replace_offline_peers : List OfflinePeer → peers.World → peers.World
  pub finish_peer_list_modifications : peers.World → peers.World
  pub publish_event : peers.World → peers.World
  -- updatePeerSSHHostKeys, and updateSSHClientConfig, whose error is only logged
  pub update_peer_ssh_host_keys : List RemotePeerConfig → peers.World → peers.World
  pub update_ssh_client_config : List RemotePeerConfig → peers.World → peers.World

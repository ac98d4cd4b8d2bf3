-- ===== src/Engine/Messages.antt =====
-- What the management service sends, as go/internal/engine.go reads it: the messages of
-- go/proto/management/proto/management.pb.go with the fields that the engine uses. A message that
-- may be nil is an Option where the engine tests it.
use netbird_minimal.Common.{ℕ, String, Bool, Option, List}
use netbird_minimal.Engine.PeerEnv.{RemotePeerConfig}

-- ProtectedHostConfig; the engine reads hostConfig.uri without a test for nil
pub record ProtectedHostConfig : Type 0 where
  pub host_uri : Option String
  pub user : String
  pub password : String

pub record RelayConfig : Type 0 where
  pub urls : List String
  pub token_payload : String
  pub token_signature : String

-- FlowConfig; the interval is in nanoseconds
pub record FlowConfig : Type 0 where
  pub url : String
  pub token_payload : String
  pub token_signature : String
  pub interval : Option ℕ
  pub enabled : Bool
  pub counters : Bool
  pub exit_node_collection : Bool
  pub dns_collection : Bool

pub record NetbirdConfig : Type 0 where
  pub stuns : List String
  pub turns : List ProtectedHostConfig
  pub relay : Option RelayConfig
  pub flow : Option FlowConfig

-- Checks
pub record Check : Type 0 where
  pub files : List String

pub record RouteMessage : Type 0 where
  pub id : String
  pub network : String
  pub network_type : ℕ
  pub peer : String
  pub metric : ℕ
  pub masquerade : Bool
  pub net_id : String
  pub domains : List String
  pub keep_route : Bool
  pub skip_auto_apply : Bool

pub record RecordMessage : Type 0 where
  pub name : String
  pub record_type : ℕ
  pub class : String
  pub ttl : ℕ
  pub rdata : String

pub record ZoneMessage : Type 0 where
  pub domain : String
  pub records : List RecordMessage
  pub search_domain_disabled : Bool
  pub skip_ptr_process : Bool

pub record NameServerMessage : Type 0 where
  pub ip : String
  pub ns_type : ℕ
  pub port : ℕ

pub record NameServerGroupMessage : Type 0 where
  pub name_servers : List NameServerMessage
  pub primary : Bool
  pub domains : List String
  pub search_domains_enabled : Bool

-- DNSConfig; the port is an int64, given by its bits
pub record DnsConfigMessage : Type 0 where
  pub service_enable : Bool
  pub name_server_groups : List NameServerGroupMessage
  pub custom_zones : List ZoneMessage
  pub forwarder_port : ℕ

-- PeerConfig: whether it has an SSH configuration is its Option
pub record PeerConfigMessage (SshConfig : Type 0) : Type 0 where
  pub address : String
  pub fqdn : String
  pub ssh_config : Option SshConfig
  pub routing_peer_dns_resolution_enabled : Bool
  pub lazy_connection_enabled : Bool

pub record ForwardingRule (PortMessage : Type 0) : Type 0 where
  pub protocol : ℕ
  pub destination_port : PortMessage
  pub translated_address : String
  pub translated_port : PortMessage

pub record NetworkMap (SshConfig PortMessage : Type 0) : Type 0 where
  pub serial : ℕ
  pub peer_config : Option (PeerConfigMessage SshConfig)
  pub remote_peers : List RemotePeerConfig
  pub remote_peers_is_empty : Bool
  pub offline_peers : List RemotePeerConfig
  pub routes : List RouteMessage
  pub dns_config : Option DnsConfigMessage
  -- len(RoutesFirewallRules), and RoutesFirewallRulesIsEmpty
  pub routes_firewall_rules : ℕ
  pub routes_firewall_rules_is_empty : Bool
  pub forwarding_rules : List (ForwardingRule PortMessage)

pub record SyncResponse (SshConfig PortMessage : Type 0) : Type 0 where
  pub netbird_config : Option NetbirdConfig
  pub network_map : Option (NetworkMap SshConfig PortMessage)
  pub checks : List Check

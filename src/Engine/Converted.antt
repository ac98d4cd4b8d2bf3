-- ===== src/Engine/Converted.antt =====
-- What go/internal/engine.go makes of the messages: routes, forwarder entries, the DNS
-- configuration, forwarding rules and peer states, of the packages route, dns, dnsfwd, firewall
-- and peer.
use netbird_minimal.Common.{ℕ, String, Bool, List}

-- route.Route
pub record Route (Prefix : Type 0) : Type 0 where
  pub id : String
  pub network : Prefix
  pub domains : List String
  pub net_id : String
  pub network_type : ℕ
  pub peer : String
  pub metric : ℕ
  pub masquerade : Bool
  pub keep_route : Bool
  pub skip_auto_apply : Bool

-- dnsfwd.ForwarderEntry
pub record ForwarderEntry (DomainSet : Type 0) : Type 0 where
  pub domain : String
  pub set : DomainSet
  pub res_id : String

-- nbdns.SimpleRecord
pub record SimpleRecord : Type 0 where
  pub name : String
  pub record_type : ℕ
  pub class : String
  pub ttl : ℕ
  pub rdata : String

-- nbdns.CustomZone
pub record CustomZone : Type 0 where
  pub domain : String
  pub records : List SimpleRecord
  pub search_domain_disabled : Bool
  pub skip_ptr_process : Bool

-- nbdns.NameServer
pub record NameServer (Addr : Type 0) : Type 0 where
  pub ip : Addr
  pub ns_type : ℕ
  pub port : ℕ

-- nbdns.NameServerGroup
pub record NameServerGroup (Addr : Type 0) : Type 0 where
  pub name_servers : List (NameServer Addr)
  pub primary : Bool
  pub domains : List String
  pub search_domains_enabled : Bool

-- nbdns.Config
pub record DnsConfig (Addr : Type 0) : Type 0 where
  pub service_enable : Bool
  pub custom_zones : List CustomZone
  pub name_server_groups : List (NameServerGroup Addr)
  pub forwarder_port : ℕ

-- nftypes.FlowConfig
pub record FlowLoggerConfig : Type 0 where
  pub enabled : Bool
  pub counters : Bool
  pub url : String
  pub token_payload : String
  pub token_signature : String
  pub interval : ℕ
  pub dns_collection : Bool
  pub exit_node_collection : Bool

-- firewallManager.ForwardRule
pub record ForwardRule (Protocol Port Addr : Type 0) : Type 0 where
  pub protocol : Protocol
  pub destination_port : Port
  pub translated_address : Addr
  pub translated_port : Port

-- peer.State of an offline peer, which is idle
pub record OfflinePeer : Type 0 where
  pub ip : String
  pub pub_key : String
  pub fqdn : String

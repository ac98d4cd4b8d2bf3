-- ===== src/Engine/Convert.antt =====
-- Conversions of messages: toDNSFeatureFlag, toRoutes, toRouteDomains, toDNSConfig and
-- updateOfflinePeers of go/internal/engine.go.
pub mod Dns
mod Tests
use netbird_minimal.Common.{
  ℕ, String, Bool, true, false, Option, none, some, List, [], ◌∷◌, ◌++◌, map, if◌then◌else◌,
  is_empty, str_eq, join, ◌==◌, ◌%◌, ◌^◌,
}
use netbird_minimal.Common.Outcome.{Outcome, ok, err, panic}
use netbird_minimal.Engine.Netip.{Netip}
use netbird_minimal.Engine.PeerEnv.{PeerEnv, RemotePeerConfig}
use netbird_minimal.Engine.Messages.{
  RouteMessage, RecordMessage, ZoneMessage, NameServerMessage, NameServerGroupMessage,
  DnsConfigMessage, NetworkMap,
}
use netbird_minimal.Engine.Converted.{
  Route, ForwarderEntry, SimpleRecord, CustomZone, NameServer, NameServerGroup, DnsConfig,
  OfflinePeer,
}
use netbird_minimal.Engine.SyncEnv.{SyncEnv}

-- a record of a custom zone
unfoldable pub to_simple_record : RecordMessage → SimpleRecord
to_simple_record r = record {
  name = r.name;
  record_type = r.record_type;
  class = r.class;
  ttl = r.ttl;
  rdata = r.rdata;
}

unfoldable pub to_custom_zone : ZoneMessage → CustomZone
to_custom_zone z = record {
  domain = z.domain;
  records = map to_simple_record z.records;
  search_domain_disabled = z.search_domain_disabled;
  skip_ptr_process = z.skip_ptr_process;
}

-- the loop of updateOfflinePeers
unfoldable pub to_offline_peers : List RemotePeerConfig → List OfflinePeer
to_offline_peers =
    map (λ p. record { ip = join "," p.allowed_ips; pub_key = p.wg_pub_key; fqdn = p.fqdn })

module _ {net : Netip} {peers : PeerEnv net} (env : SyncEnv peers) where
  open net use {Prefix, parse_prefix}
  open env use {Addr, DomainSet, parse_addr}

  -- toDNSFeatureFlag
  unfoldable pub to_dns_feature_flag : NetworkMap env.SshConfig env.PortMessage → Bool
  to_dns_feature_flag m = elim m.peer_config [
    | none ↦ false
    | some c ↦ c.routing_peer_dns_resolution_enabled
  ]

  -- the network of a route in toRoutes, before Masked: `none` for a network that does not parse
  unfoldable pub route_network : RouteMessage → Option Prefix
  route_network r = if is_empty r.domains then parse_prefix r.network else some env.no_prefix

  unfoldable pub to_route : RouteMessage → Prefix → Route Prefix
  to_route r prefix = record {
    id = r.id;
    network = env.masked prefix;
    domains = env.from_punycode_list r.domains;
    net_id = r.net_id;
    network_type = r.network_type;
    peer = r.peer;
    metric = r.metric;
    masquerade = r.masquerade;
    keep_route = r.keep_route;
    skip_auto_apply = r.skip_auto_apply;
  }

  -- toRoutes: a route whose network does not parse is left out
  unfoldable pub to_routes : List RouteMessage → List (Route Prefix)
  to_routes [] = []
  to_routes (r ∷ rs) =
      let rest = to_routes rs in
      elim (route_network r) [ none ↦ rest | some prefix ↦ to_route r prefix ∷ rest ]

  -- the inner loop of toRouteDomains
  unfoldable pub domain_entries : Route Prefix → List (ForwarderEntry DomainSet)
  domain_entries r =
      map
        (λ d. record {
          domain = d;
          set = env.new_domain_set r.domains;
          res_id = env.get_resource_id r;
        })
        r.domains

  -- toRouteDomains
  unfoldable pub to_route_domains : String → List (Route Prefix) → List (ForwarderEntry DomainSet)
  to_route_domains my_pub_key [] = []
  to_route_domains my_pub_key (r ∷ rs) =
      let rest = to_route_domains my_pub_key rs in
      if is_empty r.domains
      then rest
      else (if str_eq r.peer my_pub_key then domain_entries r ++ rest else rest)

  -- the name servers of a group; netip.MustParseAddr panics
  unfoldable pub to_name_servers : List NameServerMessage → Option (List (NameServer Addr))
  to_name_servers [] = some []
  to_name_servers (s ∷ ss) =
      let rest = to_name_servers ss in
      elim (parse_addr s.ip) [
        | none ↦ none
        | some ip ↦ elim rest [
          | none ↦ none
          | some xs ↦ some (record { ip = ip; ns_type = s.ns_type; port = s.port } ∷ xs)
        ]
      ]

  -- the loop over the groups, `none` for a panic
  unfoldable pub to_groups : List NameServerGroupMessage → Option (List (NameServerGroup Addr))
  to_groups [] = some []
  to_groups (g ∷ gs) =
      let rest = to_groups gs in
      elim (to_name_servers g.name_servers) [
        | none ↦ none
        | some servers ↦ elim rest [
          | none ↦ none
          | some xs ↦ some (
              record {
                name_servers = servers;
                primary = g.primary;
                domains = g.domains;
                search_domains_enabled = g.search_domains_enabled;
              }
              ∷ xs)
        ]
      ]

  -- uint16 of the port, and the default for 0
  unfoldable pub to_forwarder_port : ℕ → ℕ
  to_forwarder_port p =
      let port = p % 2 ^ 16 in if port == 0 then env.forwarder_client_port else port

  -- toDNSConfig, `none` for a panic
  unfoldable pub to_dns_config : DnsConfigMessage → Prefix → Option (DnsConfig Addr)
  to_dns_config m network = elim (to_groups m.name_server_groups) [
    | none ↦ none
    | some groups ↦
        let update : DnsConfig Addr = record {
          service_enable = m.service_enable;
          custom_zones = map to_custom_zone m.custom_zones;
          name_server_groups = groups;
          forwarder_port = to_forwarder_port m.forwarder_port;
        } in
        some (if is_empty update.custom_zones then update else env.add_reverse_zone update network)
  ]

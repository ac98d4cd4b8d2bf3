-- ===== src/Engine/SyncSample.antt =====
-- A small client on which the handling of sync responses can be run, over the sample peers: a
-- server, an address and a port are their texts, and "bad" is the one that does not parse.
use netbird_minimal.Common.{
  ℕ, String, true, false, Option, none, some, List, [], if◌then◌else◌, str_eq, ◌==◌, refl,
}
use netbird_minimal.Common.Dict.{Dict}
use netbird_minimal.Engine.Peers.Sample.{sample_env, SampleConn}
use netbird_minimal.Engine.PeerEnv.{RemotePeerConfig}
use netbird_minimal.Engine.Messages.{NetworkMap, SyncResponse}
use netbird_minimal.Engine.SyncEnv.{SyncEnv}
use netbird_minimal.Engine.SyncState.{Engine}
use netbird_minimal.Engine.NetworkMaps.Store.{SyncLaws}

abbrev pub parses : String → Option String
parses s = if str_eq s "bad" then none else some s

abbrev pub sample : SyncEnv sample_env
sample = record {
  SshConfig = Unit {0};
  PortMessage = String;
  Uri = String;
  parse_uri = parses;
  set_credentials = λ u p s. s;
  store_stun_turn = λ us w. w;
  update_token = λ p s w. (false, w);
  update_server_urls = λ us w. w;
  serve = λ w. w;
  update_flow = λ c w. (false, w);
  update_server_config = λ c w. w;
  sync_meta = λ cs w. (false, w);
  wg_network = "100.64.0.0/10";
  update_ssh = λ c w. w;
  update_local_peer_state = λ s w. w;
  updated_remote_feature_flag = λ b w. w;
  set_exclude_list = λ ks w. w;
  update_local_ips = λ w. w;
  set_legacy_management = λ b w. w;
  Addr = String;
  parse_addr = parses;
  forwarder_client_port = 5353;
  add_reverse_zone = λ c p. c;
  update_dns_server = λ n c w. w;
  probe_availability = λ w. w;
  masked = λ p. p;
  no_prefix = "";
  from_punycode_list = λ ds. ds;
  set_dns_forwarder_port = λ p w. w;
  ServerRoutes = Unit {0};
  ClientRoutes = Unit {0};
  classify_routes = λ rs w. (tt, tt);
  update_route_ha_map = λ c w. w;
  update_routes = λ n s c b w. w;
  apply_filtering = λ b w. w;
  DomainSet = List String;
  new_domain_set = λ ds. ds;
  get_resource_id = λ r. r.id;
  public_key = "me";
  Forwarder = Unit {0};
  new_forwarder = λ w. tt;
  start_forwarder = λ f es w. (false, w);
  stop_forwarder = λ f w. (false, w);
  update_domains = λ f es w. w;
  Protocol = ℕ;
  Port = String;
  convert_protocol = λ n. if n == 0 then none else some n;
  convert_port_info = parses;
  convert_to_ip = parses;
  addr_string = λ a. a;
  new_ingress = λ w. w;
  close_ingress = λ w. (false, w);
  unset_ingress = λ w. w;
  update_ingress = λ rs w. w;
  replace_offline_peers = λ ps w. w;
  finish_peer_list_modifications = λ w. w;
  publish_event = λ w. w;
  update_peer_ssh_host_keys = λ ps w. w;
  update_ssh_client_config = λ ps w. w;
}

pub sample_sync_laws : SyncLaws sample
sample_sync_laws = record {
  finish_keeps = λ w k. refl;
  host_keys_keep = λ ps w k. refl;
  client_config_keeps = λ ps w k. refl;
  exclude_keeps = λ ks w k. refl;
  probe_keeps = λ w k. refl;
}

-- An engine with these peers that has handled a map of serial 4.
abbrev pub engine_of : Dict SampleConn → Engine sample
engine_of w = record {
  stuns = [];
  turns = [];
  checks = [];
  network_serial = 4;
  wg_interface = true;
  dns_server = true;
  conn_mgr = true;
  firewall = true;
  local_ip_updater = false;
  acl = true;
  ingress_gateway_mgr = false;
  dns_forward_mgr = none;
  disable_server_routes = false;
  persist_sync_response = true;
  latest_sync_response = none;
  world = w;
}

abbrev pub map_of : ℕ → List RemotePeerConfig → NetworkMap (Unit {0}) String
map_of n ps = record {
  serial = n;
  peer_config = none;
  remote_peers = ps;
  remote_peers_is_empty = false;
  offline_peers = [];
  routes = [];
  dns_config = none;
  routes_firewall_rules = 0;
  routes_firewall_rules_is_empty = false;
  forwarding_rules = [];
}

abbrev pub response_of : ℕ → List RemotePeerConfig → SyncResponse (Unit {0}) String
response_of n ps = record { netbird_config = none; network_map = some (map_of n ps); checks = [] }

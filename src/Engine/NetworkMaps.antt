-- ===== src/Engine/NetworkMaps.antt =====
-- The handling of a sync response: updateConfig, updateNetworkMap and handleSync of
-- go/internal/engine.go, with the methods of the engine that they call. handleSync holds
-- syncMsgMux, so that a method starts where the last one ended.
pub mod Stages
pub mod Serial
pub mod Store
pub mod History
pub mod Kept
pub mod Stopped
mod Tests
use netbird_minimal.Common.{
  ℕ, String, Bool, true, false, not, ◌&&◌, Option, none, some, List, [], ◌∷◌, ◌++◌, map,
  if◌then◌else◌, is_empty, ltb, ◌==◌,
}
use netbird_minimal.Common.Outcome.{Outcome, ok, err, panic, Act, and_then, in_turn}
use netbird_minimal.Engine.Netip.{Netip}
use netbird_minimal.Engine.PeerEnv.{RemotePeerConfig, PeerEnv}
use netbird_minimal.Engine.Peers.{PeerError, PeerConfig, remove_all_peers, apply_peers}
use netbird_minimal.Engine.Messages.{
  NetbirdConfig, DnsConfigMessage, PeerConfigMessage, ForwardingRule, NetworkMap, SyncResponse,
}
use netbird_minimal.Engine.Converted.{Route, ForwarderEntry, DnsConfig}
use netbird_minimal.Engine.SyncEnv.{SyncEnv}
use netbird_minimal.Engine.SyncState.{SyncError, Engine, Method, wg_interface_missing, peer_error}
use netbird_minimal.Engine.Servers.{
  update_stuns, update_turns, handle_relay_update, handle_flow_update, populate_netbird_config,
}
use netbird_minimal.Engine.Checks.{update_checks_if_new}
use netbird_minimal.Engine.Convert.{
  to_dns_feature_flag, to_routes, to_route_domains, to_dns_config, to_offline_peers,
}
use netbird_minimal.Engine.DnsForwarder.{ForwarderEnv, State, update_dns_forwarder}
use netbird_minimal.Engine.ForwardRules.{Rule, update_forward_rules}
use netbird_minimal.Engine.LazyPeers.{to_excluded_lazy_peers}

module _ {net : Netip} {peers : PeerEnv net} (env : SyncEnv peers) (cfg : PeerConfig) where
  open env use {SshConfig, PortMessage, DomainSet}

  -- a call of another part of the client
  abbrev pub tell : (peers.World → peers.World) → Engine env → Engine env
  tell f e = record e { world = f e.world }

  -- such a call as a statement
  abbrev pub told : (peers.World → peers.World) → Method env
  told f e = (ok tt, tell f e)

  -- updateConfig; a new address is only logged
  unfoldable pub update_config : PeerConfigMessage SshConfig → Method env
  update_config conf e = if not e.wg_interface then (err wg_interface_missing, e) else (
    ok tt,
    tell
        (λ w.
          env.update_local_peer_state conf.fqdn
            (elim conf.ssh_config [ none ↦ w | some c ↦ env.update_ssh c w ]))
        e,
  )

  -- the part of updateNetworkMap that tells the firewall
  unfoldable pub update_firewall : NetworkMap SshConfig PortMessage → Engine env → Engine env
  update_firewall m e =
      if not e.firewall
      then e
      else tell
          (λ w.
            env.set_legacy_management
              (m.routes_firewall_rules == 0 && not m.routes_firewall_rules_is_empty)
              (if e.local_ip_updater then env.update_local_ips w else w))
          e

  -- the empty message for a network map without a DNS configuration
  abbrev pub no_dns_config : DnsConfigMessage
  no_dns_config = record {
    service_enable = false;
    name_server_groups = [];
    custom_zones = [];
    forwarder_port = 0;
  }

  -- the part that updates DNS: toDNSConfig or a method of a nil interface may panic
  unfoldable pub update_dns : NetworkMap SshConfig PortMessage → Method env
  update_dns m e =
      let message : DnsConfigMessage = elim m.dns_config [ none ↦ no_dns_config | some c ↦ c ] in
      if not e.wg_interface then (panic, e) else (elim (to_dns_config env message env.wg_network) [
        | none ↦ (panic, e)
        | some config ↦ if not e.dns_server then (panic, e) else (
          ok tt,
          tell
              (λ w.
                env.set_dns_forwarder_port config.forwarder_port
                  (env.update_dns_server m.serial config w))
              e,
        )
      ])

  -- the DNS forwarder of the engine
  abbrev pub forwarder : ForwarderEnv
  forwarder = record {
    World = peers.World;
    Entry = ForwarderEntry DomainSet;
    Forwarder = env.Forwarder;
    new_manager = env.new_forwarder;
    start = env.start_forwarder;
    stop = env.stop_forwarder;
    update_domains = env.update_domains;
  }

  -- the part that applies the routes, the filtering and the DNS forwarder
  unfoldable pub apply_routes : NetworkMap SshConfig PortMessage → Engine env → Engine env
  apply_routes m e =
      let routes = to_routes env m.routes in
      let flag = to_dns_feature_flag env m in
      let (servers, clients) = env.classify_routes routes e.world in
      let w1 = if e.conn_mgr then env.update_route_ha_map clients e.world else e.world in
      let w2 = env.update_routes m.serial servers clients flag w1 in
      let w3 = if e.acl then env.apply_filtering flag w2 else w2 in
      let start : State forwarder = record { dns_forward_mgr = e.dns_forward_mgr; world = w3 } in
      let s =
        update_dns_forwarder forwarder e.disable_server_routes flag
          (to_route_domains env env.public_key routes) start in
      record e { dns_forward_mgr = s.dns_forward_mgr; world = s.world }

  -- a result of the peers' part as one of the engine
  abbrev pub lift_peers :
      Outcome PeerError (Unit {0}) × peers.World
      → Engine env
      → Outcome SyncError (Unit {0}) × Engine env
  lift_peers (ok u, w) e = (ok tt, record e { world = w })
  lift_peers (err x, w) e = (err (peer_error x), record e { world = w })
  lift_peers (panic, w) e = (panic, record e { world = w })

  -- the part that applies the peers; an empty list removes all peers, announced or not
  unfoldable pub apply_remote_peers : NetworkMap SshConfig PortMessage → Method env
  apply_remote_peers m e =
      if m.remote_peers_is_empty
      then (let (o, w) = remove_all_peers net peers cfg e.world in
          lift_peers (o, env.finish_peer_list_modifications w) e)
      else and_then (lift_peers (apply_peers net peers cfg m.remote_peers e.world) e) (λ _ e1. (
        ok tt,
        tell
            (λ w.
              env.update_ssh_client_config m.remote_peers (
                env.update_peer_ssh_host_keys m.remote_peers
                  (env.finish_peer_list_modifications w)))
            e1,
      ))

  -- the end: the excluded peers, the serial, and a probe of the DNS servers
  unfoldable pub finish_map : List (Rule env) → NetworkMap SshConfig PortMessage → Method env
  finish_map rules m e =
      let excluded =
        to_excluded_lazy_peers (map (λ r. env.addr_string r.translated_address) rules)
          m.remote_peers in
      if not e.conn_mgr
      then (panic, e)
      else (let e1 : Engine env = record e {
        network_serial = m.serial;
        world = env.set_exclude_list excluded e.world;
      } in
          if not e.dns_server then (panic, e1) else (ok tt, tell env.probe_availability e1))

  -- a statement that the nil connection manager ends
  abbrev pub with_conn_mgr : (peers.World → peers.World) → Method env
  with_conn_mgr f e = if not e.conn_mgr then (panic, e) else (ok tt, tell f e)

  -- updateNetworkMap from the routes on
  unfoldable pub apply_changes : NetworkMap SshConfig PortMessage → Method env
  apply_changes m e =
      let (out, e1) = update_forward_rules env m.forwarding_rules (apply_routes m e) in
      in_turn
        (told (env.replace_offline_peers (to_offline_peers m.offline_peers))
          ∷ apply_remote_peers m
          ∷ finish_map out.0 m
          ∷ [])
        e1

  -- the flag of the remote peer configuration
  abbrev pub lazy_flag : NetworkMap SshConfig PortMessage → Bool
  lazy_flag m = elim m.peer_config [ none ↦ false | some c ↦ c.lazy_connection_enabled ]

  -- updateNetworkMap behind the test of the serial
  unfoldable pub apply_map : NetworkMap SshConfig PortMessage → Method env
  apply_map m = in_turn (
      with_conn_mgr (env.updated_remote_feature_flag (lazy_flag m))
      ∷ (λ e. (ok tt, update_firewall m e))
      ∷ update_dns m
      ∷ apply_changes m
      ∷ [])

  -- the configuration of a network map, where there is one
  abbrev pub config_of_map : NetworkMap SshConfig PortMessage → Method env
  config_of_map m e = elim m.peer_config [ none ↦ (ok tt, e) | some c ↦ update_config c e ]

  -- updateNetworkMap: an outdated map only updates the configuration
  unfoldable pub update_network_map : NetworkMap SshConfig PortMessage → Method env
  update_network_map m e =
      and_then (config_of_map m e)
        (λ _ e1. if ltb m.serial e1.network_serial then (ok tt, e1) else apply_map m e1)

  -- the part of handleSync for a NetbirdConfig
  unfoldable pub handle_config : NetbirdConfig → Method env
  handle_config c = in_turn (
      update_turns env c.turns
      ∷ update_stuns env c.stuns
      ∷ (λ e. told (env.store_stun_turn (e.stuns ++ e.turns)) e)
      ∷ handle_relay_update env c.relay
      ∷ handle_flow_update env c.flow
      ∷ (λ e. (ok tt, populate_netbird_config env c e))
      ∷ [])

  -- the configuration of a response, where there is one
  abbrev pub config_of_sync : SyncResponse SshConfig PortMessage → Method env
  config_of_sync u e = elim u.netbird_config [ none ↦ (ok tt, e) | some c ↦ handle_config c e ]

  -- the response that is kept for GetLatestSyncResponse
  abbrev pub keep_response : SyncResponse SshConfig PortMessage → Engine env → Engine env
  keep_response u e =
      if e.persist_sync_response then record e { latest_sync_response = some u } else e

  -- the part of handleSync for a network map
  unfoldable pub map_of_sync : SyncResponse SshConfig PortMessage → Method env
  map_of_sync u e = elim u.network_map [
    | none ↦ (ok tt, e)
    | some m ↦ and_then (update_network_map m (keep_response u e)) (λ _. told env.publish_event)
  ]

  -- handleSync
  unfoldable pub handle_sync : SyncResponse SshConfig PortMessage → Method env
  handle_sync u =
      in_turn (config_of_sync u ∷ update_checks_if_new env u.checks ∷ map_of_sync u ∷ [])

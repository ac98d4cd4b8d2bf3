-- ===== src/Engine/NetworkMaps/Tests.antt =====
-- Runs of the handling of a sync response, and its theorems at those runs.
use netbird_minimal.Common.{◌≤◌, ◌≡◌, refl, false, [], ◌∷◌, is_some, contains, arith}
use netbird_minimal.Common.Dict.{lookup, insert, erase}
use netbird_minimal.Common.Outcome.{ok, each, in_turn}
use netbird_minimal.Engine.NetIpLists.{compare_net_ip_lists}
use netbird_minimal.Engine.Peers.{
  add_new_peer, add_new_peers, remove_peer, remove_peers, inspect, collect_modified, modify_peers,
  apply_peers, create_peer_conn, parse_allowed_ips, register_peer, conn_config,
}
use netbird_minimal.Engine.Peers.Sample.{sample_laws, sample_config, peer_a, peer_b}
use netbird_minimal.Engine.SyncSample.{sample, sample_sync_laws, engine_of, map_of, response_of}
use netbird_minimal.Engine.SyncState.{Engine}
use netbird_minimal.Engine.Convert.{
  to_dns_config, to_groups, to_forwarder_port, to_routes, to_route_domains, to_dns_feature_flag,
  to_offline_peers,
}
use netbird_minimal.Engine.DnsForwarder.{update_dns_forwarder, stop_dns_forwarder}
use netbird_minimal.Engine.ForwardRules.{update_forward_rules}
use netbird_minimal.Engine.LazyPeers.{to_excluded_lazy_peers}
use netbird_minimal.Engine.Persistence.{set_sync_response_persistence}
use netbird_minimal.Engine.NetworkMaps.{
  update_dns, update_firewall, apply_routes, apply_remote_peers, finish_map, apply_changes,
  apply_map, update_network_map, handle_sync,
}
use netbird_minimal.Engine.NetworkMaps.Store.{update_network_map-keys}
use netbird_minimal.Engine.NetworkMaps.History.{
  Handles, handle_sync-Handles, here, next, sync, persist, IsPrivate, Reach-IsPrivate,
}

new_map_run :
    (update_network_map sample sample_config (map_of 5 (peer_a ∷ peer_b ∷ [])) (engine_of [])).0
    ≡ ok tt
unfolding update_network_map apply_map in_turn update_firewall update_dns to_dns_config to_groups
    to_forwarder_port apply_changes apply_routes to_routes to_route_domains to_dns_feature_flag
    update_dns_forwarder stop_dns_forwarder update_forward_rules to_offline_peers apply_remote_peers
    finish_map to_excluded_lazy_peers apply_peers add_new_peers remove_peers modify_peers
    collect_modified inspect add_new_peer create_peer_conn parse_allowed_ips register_peer
    conn_config each remove_peer compare_net_ip_lists lookup insert erase contains
new_map_run = refl

update_network_map-keys_example :
    is_some (
      lookup "b"
        (update_network_map sample sample_config
          (map_of 5 (peer_a ∷ peer_b ∷ []))
          (engine_of [])).1.world)
    ≡ contains "b" ("a" ∷ "b" ∷ [])
update_network_map-keys_example =
    update_network_map-keys sample sample_laws sample_sync_laws sample_config
      (map_of 5 (peer_a ∷ peer_b ∷ [])) (engine_of []) refl new_map_run "b"

handle_sync-Handles_example :
    Handles sample sample_config
      (response_of 3 (peer_a ∷ []))
      (engine_of [])
      (handle_sync sample sample_config (response_of 3 (peer_a ∷ [])) (engine_of []))
handle_sync-Handles_example =
    handle_sync-Handles sample sample_config (response_of 3 (peer_a ∷ [])) (engine_of [])

-- An engine that handled one response and then turned persistence off.
synced : Engine sample
synced = (handle_sync sample sample_config (response_of 5 (peer_a ∷ [])) (engine_of [])).1

silenced : Engine sample
silenced = set_sync_response_persistence sample false synced

Reach-IsPrivate_example : IsPrivate sample sample_config silenced × (4 ≤ silenced.network_serial)
unfolding synced silenced
Reach-IsPrivate_example =
    Reach-IsPrivate sample sample_config {s = engine_of []} (λ off. absurd (ground arith))
      (next (next here (sync (response_of 5 (peer_a ∷ [])) (engine_of []) synced refl))
        (persist false synced silenced refl))

abbrev stopped : Engine sample
stopped = record (engine_of []) { wg_interface = false; dns_server = false }

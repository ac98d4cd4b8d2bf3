-- ===== src/Engine/Stopping/Tests.antt =====
-- A stop of the sample engine.
use netbird_minimal.Common.{◌⊎◌, String, ◌≡◌, ◌≢◌, refl, true, false, none, [], ◌∷◌}
use netbird_minimal.Common.Dict.{Dict}
use netbird_minimal.Common.Outcome.{err, panic}
use netbird_minimal.Engine.Peers.Sample.{SampleConn, sample_laws, sample_config, sample_env, peer_a}
use netbird_minimal.Engine.SyncSample.{sample, engine_of, map_of}
use netbird_minimal.Engine.SyncState.{wg_interface_missing}
use netbird_minimal.Engine.NetworkMaps.{update_network_map}
use netbird_minimal.Engine.Stopping.{StopEnv, Running, stop}
use netbird_minimal.Engine.Stopping.Released.{StopLaws, IsReleased, stop-IsReleased}
use netbird_minimal.Engine.Stopping.Waiting.{MapLaws, stop-update_network_map}
use netbird_minimal.Engine.Stopping.Interface.{address, get_wg_addr, address-stop}

abbrev quiet : StopEnv (Dict SampleConn)
quiet = record {
  close_conn_mgr = λ w. w;
  stop_network_monitor = λ w. w;
  stop_ssh_server = λ w. (false, w);
  cleanup_ssh_config = λ w. w;
  stop_dns_server = λ w. w;
  NsGroupState = String;
  get_dns_states = λ w. [];
  update_dns_states = λ ss w. w;
  with_enabled = λ b s. s;
  with_error = λ e s. e;
  stop_route_manager = λ w. w;
  close_sr_watcher = λ w. w;
  clear_relay_states = λ w. w;
  cancel = λ w. w;
  close_wg_interface = λ w. (false, w);
  unset_wg_iface = λ w. w;
  close_firewall = λ w. (false, w);
  close_rosenpass = λ w. (false, w);
  close_flow_manager = λ w. w;
  stop_state_manager = λ w. (false, w);
  persist_state = λ w. (true, w);
  wait_with_context = λ t w. (false, w);
}

quiet_laws : StopLaws sample_env quiet
quiet_laws = record {
  cancel_keeps = λ w k. refl;
  close_interface_keeps = λ w k. refl;
  unset_keeps = λ w k. refl;
  firewall_keeps = λ w k. refl;
  rosenpass_keeps = λ w k. refl;
  flow_keeps = λ w k. refl;
  state_keeps = λ w k. refl;
  persist_keeps = λ w k. refl;
  wait_keeps = λ t w k. refl;
}

-- An engine with a connection to one peer.
abbrev conn_a : SampleConn
conn_a = record {
  key = "a";
  local_key = "me";
  agent_version = "0.50.0";
  timeout_ms = 45000;
  remote_key = "a";
  wg_listen_port = 51820;
  allowed_ips = "10.0.0.1/32" ∷ [];
  pre_shared_key = none;
  local_wg_port = 51820;
  rosenpass_pub_key = none;
  rosenpass_addr = "";
  permissive_mode = false;
  ice_config = tt;
}

abbrev started : Running sample sample_config quiet
started = record {
  engine = engine_of (("a", conn_a) ∷ []);
  network_monitor = true;
  route_manager = true;
  sr_watcher = false;
  cancel = true;
  rosenpass = false;
  flow_manager = true;
}

stop-IsReleased_example :
    ((stop sample sample_config quiet started).0 ≢ panic)
    × IsReleased sample sample_laws sample_config quiet quiet_laws started.engine
        (stop sample sample_config quiet started).1.engine
stop-IsReleased_example =
    stop-IsReleased sample sample_laws sample_config quiet quiet_laws started refl

map_laws : MapLaws sample sample_laws sample_config quiet quiet_laws
map_laws = record {
  flag_keeps = λ b w k. refl;
  local_ips_keep = λ w k. refl;
  legacy_keeps = λ b w k. refl;
}

stop-update_network_map_example :
    let r =
      update_network_map sample sample_config
        (map_of 6 (peer_a ∷ []))
        (stop sample sample_config quiet started).1.engine in
    ((r.0 ≡ err wg_interface_missing) ⊎ (r.0 ≡ panic))
    × IsReleased sample sample_laws sample_config quiet quiet_laws started.engine r.1
stop-update_network_map_example =
    stop-update_network_map sample sample_laws sample_config quiet quiet_laws map_laws started
      (map_of 6 (peer_a ∷ [])) refl refl

address-stop_example :
    (address sample "100.64.0.1" started.engine started.engine ≢ panic)
    × (true ≡ true
        → (address sample "100.64.0.1" started.engine
              (stop sample sample_config quiet started).1.engine
            ≡ panic)
          × (get_wg_addr sample "100.64.0.1" started.engine
                (stop sample sample_config quiet started).1.engine
              ≡ panic))
address-stop_example =
    address-stop sample sample_laws sample_config quiet quiet_laws started "100.64.0.1" refl

-- ===== src/Engine/Stopping.antt =====
-- The end of the engine: Stop, close and stopDNSServer of go/internal/engine.go, with the methods that
-- ask for the interface while the engine may stop: Address, GetWgAddr, GetNet and RenewTun.
pub mod Released
pub mod Waiting
pub mod Interface
mod Tests
use netbird_minimal.Common.{
  ℕ, String, Bool, true, false, not, ◌&&◌, Option, none, some, List, [], ◌∷◌, map, if◌then◌else◌,
  is_empty,
}
use netbird_minimal.Common.Outcome.{Outcome, ok, err, panic}
use netbird_minimal.Engine.Netip.{Netip}
use netbird_minimal.Engine.PeerEnv.{PeerEnv}
use netbird_minimal.Engine.Peers.{PeerConfig, remove_all_peers}
use netbird_minimal.Engine.SyncEnv.{SyncEnv}
use netbird_minimal.Engine.SyncState.{Engine}
use netbird_minimal.Engine.DnsForwarder.{ForwarderEnv, State, stop_dns_forwarder}
use netbird_minimal.Engine.NetworkMaps.{forwarder}
use netbird_minimal.Engine.Shutdown.{calculate_shutdown_timeout}

-- What Stop calls; a Boolean beside a world says that the call failed.
pub record StopEnv (World : Type 0) : Type 1 where
  pub close_conn_mgr : World → World
  pub stop_network_monitor : World → World
  -- stopSSHServer and cleanupSSHConfig
  pub stop_ssh_server : World → Bool × World
  pub cleanup_ssh_config : World → World
  pub stop_dns_server : World → World
  -- the DNS states of the status recorder
  pub NsGroupState : Type 0
  pub get_dns_states : World → List NsGroupState
  pub update_dns_states : List NsGroupState → World → World
  pub with_enabled : Bool → NsGroupState → NsGroupState
  pub with_error : String → NsGroupState → NsGroupState
  -- routeManager.Stop, srWatcher.Close and UpdateRelayStates of no results
  pub stop_route_manager : World → World
  pub close_sr_watcher : World → World
  pub clear_relay_states : World → World
  -- the function that cancels the context
  pub cancel : World → World
  pub close_wg_interface : World → Bool × World
  pub unset_wg_iface : World → World
  pub close_firewall : World → Bool × World
  pub close_rosenpass : World → Bool × World
  pub close_flow_manager : World → World
  -- stateManager: Stop with its timeout of three seconds, and PersistState
  pub stop_state_manager : World → Bool × World
  pub persist_state : World → Bool × World
  -- waitWithContext of shutdownWg with a timeout
  pub wait_with_context : ℕ → World → Bool × World

pub data StopError : Type 0 where
  state_manager_failed : StopError

module _ {net : Netip} {peers : PeerEnv net} (env : SyncEnv peers) (cfg : PeerConfig)
    (calls : StopEnv peers.World) where
  -- The engine, with whether the other pointers that Stop tests are not nil.
  pub record Running : Type 0 where
    pub engine : Engine env
    pub network_monitor : Bool
    pub route_manager : Bool
    pub sr_watcher : Bool
    pub cancel : Bool
    pub rosenpass : Bool
    pub flow_manager : Bool

  -- a call where the pointer is not nil
  abbrev pub where_set : Bool → (peers.World → peers.World) → peers.World → peers.World
  where_set b f w = if b then f w else w

  -- stopDNSServer
  unfoldable pub stop_dns_server : Engine env → Engine env
  stop_dns_server e =
      if not e.dns_server
      then e
      else (let w = calls.stop_dns_server e.world in
          let states =
            map (λ s. calls.with_error "DNS server stopped" (calls.with_enabled false s))
              (calls.get_dns_states w) in
          record e { dns_server = false; world = calls.update_dns_states states w })

  -- the part of Stop for the ingress gateway manager; an error is only logged
  unfoldable pub stop_ingress : Engine env → Engine env
  stop_ingress e =
      if not e.ingress_gateway_mgr
      then e
      else record e { ingress_gateway_mgr = false; world = (env.close_ingress e.world).1 }

  -- Stop up to the removal of the peers
  unfoldable pub stop_services : Running → Engine env
  unfolding stop_dns_server stop_ingress
  stop_services s =
      let e = s.engine in
      let w1 = where_set e.conn_mgr calls.close_conn_mgr e.world in
      let w2 = where_set s.network_monitor calls.stop_network_monitor w1 in
      let w3 = calls.cleanup_ssh_config (calls.stop_ssh_server w2).1 in
      let e1 = stop_ingress (stop_dns_server (record e { world = w3 })) in
      let start : State (forwarder env cfg) = record {
        dns_forward_mgr = e1.dns_forward_mgr;
        world = e1.world;
      } in
      let f = stop_dns_forwarder (forwarder env cfg) start in
      let w4 = where_set s.route_manager calls.stop_route_manager f.world in
      let w5 = where_set s.sr_watcher calls.close_sr_watcher w4 in
      let w6 =
        calls.clear_relay_states (calls.update_dns_states [] (env.replace_offline_peers [] w5)) in
      record e1 { dns_forward_mgr = f.dns_forward_mgr; world = w6 }

  -- close: the errors are only logged
  unfoldable pub close : Bool → Engine env → Engine env
  close rosenpass e =
      let e1 =
        (if e.wg_interface
          then record e {
            wg_interface = false;
            world = calls.unset_wg_iface (calls.close_wg_interface e.world).1;
          }
          else e) in
      let w1 = where_set e.firewall (λ w. (calls.close_firewall w).1) e1.world in
      record e1 { world = where_set rosenpass (λ w. (calls.close_rosenpass w).1) w1 }

  -- the end of Stop: an error of PersistState or of the wait is only logged
  unfoldable pub finish_stop : peers.World → Outcome StopError (Unit {0}) × peers.World
  unfolding calculate_shutdown_timeout
  finish_stop w =
      let (failed, w1) = calls.stop_state_manager w in
      if failed
      then (err state_manager_failed, w1)
      else (let w2 = (calls.persist_state w1).1 in
          (
            ok tt,
            (calls.wait_with_context (calculate_shutdown_timeout (peers.peers_pub_key w2)) w2).1,
          ))

  -- Stop of an engine that is not nil; the nil engine is left alone. removeAllPeers panics where there
  -- are peers and the connection manager is nil, and never fails.
  unfoldable pub stop : Running → Outcome StopError (Unit {0}) × Running
  unfolding stop_services close finish_stop
  stop s =
      let e1 = stop_services s in
      if not e1.conn_mgr && not (is_empty (peers.peers_pub_key e1.world))
      then (panic, record s { engine = e1 })
      else (let w = where_set s.cancel calls.cancel (remove_all_peers net peers cfg e1.world).1 in
          let e2 = close s.rosenpass (record e1 { world = w }) in
          let (o, w') = finish_stop (where_set s.flow_manager calls.close_flow_manager e2.world) in
          (o, record s { engine = record e2 { world = w' } }))

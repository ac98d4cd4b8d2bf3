-- ===== src/Engine/Stopping/Released.antt =====
-- What Stop of go/internal/engine.go leaves behind.
use mathlib.Core.Path.{subst}
use netbird_minimal.Common.{
  ℕ, String, ◌≡◌, ◌≢◌, refl, sym, ◌∙◌, Bool, true, false, none, arith, if◌then◌else◌, is_some,
  contains, Bool-cases, inl, inr,
}
use netbird_minimal.Common.Outcome.{Outcome, ok, err, panic}
use netbird_minimal.Engine.Netip.{Netip}
use netbird_minimal.Engine.PeerEnv.{PeerEnv, PeerLaws, KeepsStore}
use netbird_minimal.Engine.Peers.{PeerConfig, remove_all_peers}
use netbird_minimal.Engine.Peers.Store.{remove_each_store}
use netbird_minimal.Engine.SyncEnv.{SyncEnv}
use netbird_minimal.Engine.SyncState.{Engine}
use netbird_minimal.Engine.DnsForwarder.{stop_dns_forwarder}
use netbird_minimal.Engine.Shutdown.{calculate_shutdown_timeout}
use netbird_minimal.Engine.Stopping.{
  StopEnv, StopError, state_manager_failed, Running, where_set, stop_dns_server, stop_ingress,
  stop_services, close, finish_stop, stop,
}

-- What is called behind the removal of the peers leaves the peer store alone.
pub record StopLaws {net : Netip} (peers : PeerEnv net) (calls : StopEnv peers.World) : Type 0 where
  pub cancel_keeps : KeepsStore peers calls.cancel
  pub close_interface_keeps : KeepsStore peers (λ w. (calls.close_wg_interface w).1)
  pub unset_keeps : KeepsStore peers calls.unset_wg_iface
  pub firewall_keeps : KeepsStore peers (λ w. (calls.close_firewall w).1)
  pub rosenpass_keeps : KeepsStore peers (λ w. (calls.close_rosenpass w).1)
  pub flow_keeps : KeepsStore peers calls.close_flow_manager
  pub state_keeps : KeepsStore peers (λ w. (calls.stop_state_manager w).1)
  pub persist_keeps : KeepsStore peers (λ w. (calls.persist_state w).1)
  pub wait_keeps : (t : ℕ) → KeepsStore peers (λ w. (calls.wait_with_context t w).1)

module _ {net : Netip} {peers : PeerEnv net} (env : SyncEnv peers) (peer_laws : PeerLaws peers)
    (cfg : PeerConfig) (calls : StopEnv peers.World) (laws : StopLaws peers calls) where
  open env use {SshConfig, PortMessage}

  -- No peer is in the store.
  abbrev pub IsEmptied : peers.World → Type 0
  IsEmptied w = (k : String) → peers.peer_conn w k ≡ none

  where_set-keeps :
      (b : Bool) (f : peers.World → peers.World)
      → KeepsStore peers f
      → KeepsStore peers (where_set env cfg calls b f)
  where_set-keeps true f h = h
  where_set-keeps false f h = λ w k. refl

  emptied : (w : peers.World) → IsEmptied (remove_all_peers net peers cfg w).1
  unfolding remove_all_peers
  emptied w k = elim (Bool-cases (contains k (peers.peers_pub_key w))) [
    | inl h ↦ ground (arith, remove_each_store net peers peer_laws cfg (peers.peers_pub_key w) w k)
    | inr h ↦
        let gone : is_some (peers.peer_conn w k) ≡ false =
          sym (peer_laws.peers_pub_key_lem w k) ∙ h in
        ground (arith, remove_each_store net peers peer_laws cfg (peers.peers_pub_key w) w k)
  ]

  -- What stop_services does to the fields.
  stop_services-fields :
      (s : Running env cfg calls)
      → let e = stop_services env cfg calls s in
        (e.dns_server ≡ false)
        × (e.ingress_gateway_mgr ≡ false)
        × (e.dns_forward_mgr ≡ none)
        × (e.network_serial ≡ s.engine.network_serial)
        × (e.conn_mgr ≡ s.engine.conn_mgr)
  unfolding stop_services stop_dns_server stop_ingress stop_dns_forwarder
  stop_services-fields s = (ground arith, ground arith, ground arith, ground arith, ground arith)

  -- What close does to the fields.
  close-fields :
      (b : Bool) (e : Engine env)
      → let e1 = close env cfg calls b e in
        (e1.wg_interface ≡ false)
        × (e1.dns_server ≡ e.dns_server)
        × (e1.ingress_gateway_mgr ≡ e.ingress_gateway_mgr)
        × (e1.dns_forward_mgr ≡ e.dns_forward_mgr)
        × (e1.network_serial ≡ e.network_serial)
  unfolding close
  close-fields b e = (ground arith, ground arith, ground arith, ground arith, ground arith)

  close-keeps :
      (b : Bool) (e : Engine env) (k : String)
      → peers.peer_conn (close env cfg calls b e).world k ≡ peers.peer_conn e.world k
  unfolding close
  close-keeps b e k = split e.wg_interface
    where
      gone : Bool → Engine env
      gone wg =
          if wg
          then record e {
            wg_interface = false;
            world = calls.unset_wg_iface (calls.close_wg_interface e.world).1;
          }
          else e

      first : (wg : Bool) → peers.peer_conn (gone wg).world k ≡ peers.peer_conn e.world k
      first true =
          laws.unset_keeps (calls.close_wg_interface e.world).1 k
          ∙ laws.close_interface_keeps e.world k
      first false = refl

      split :
          (wg : Bool)
          → let w2 =
              where_set env cfg calls e.firewall
                (λ w. (calls.close_firewall w).1)
                (gone wg).world in
            peers.peer_conn (where_set env cfg calls b (λ w. (calls.close_rosenpass w).1) w2) k
            ≡ peers.peer_conn e.world k
      split wg =
          where_set-keeps b (λ w. (calls.close_rosenpass w).1) laws.rosenpass_keeps
            (where_set env cfg calls e.firewall (λ w. (calls.close_firewall w).1) (gone wg).world) k
          ∙ where_set-keeps e.firewall (λ w. (calls.close_firewall w).1) laws.firewall_keeps
              (gone wg).world k
          ∙ first wg

  -- The end of Stop.
  abbrev Kept : peers.World → Outcome StopError (Unit {0}) × peers.World → Type 0
  Kept w r = (r.0 ≢ panic) × ((k : String) → peers.peer_conn r.1 k ≡ peers.peer_conn w k)

  finish_stop-Kept : (w : peers.World) → Kept w (finish_stop env cfg calls w)
  unfolding finish_stop
  finish_stop-Kept w = split (calls.stop_state_manager w).0
    where
      w1 : peers.World
      w1 = (calls.stop_state_manager w).1

      w2 : peers.World
      w2 = (calls.persist_state w1).1

      split :
          (failed : Bool)
          → Kept w (
              let out : Outcome StopError (Unit {0}) × peers.World =
                if failed then (err state_manager_failed, w1) else (
                  ok tt,
                  (calls.wait_with_context
                      (calculate_shutdown_timeout (peers.peers_pub_key w2))
                      w2).1,
                ) in
              out)
      split true = (λ q. ground (arith, q), λ k. laws.state_keeps w k)
      split false = (
        λ q. ground (arith, q),
        λ k.
            laws.wait_keeps (calculate_shutdown_timeout (peers.peers_pub_key w2)) w2 k
            ∙ laws.persist_keeps w1 k
            ∙ laws.state_keeps w k,
      )

  -- The engine has given everything up that it had in hand, and kept the serial.
  pub record IsReleased (s t : Engine env) : Type 0 where
    pub interface : t.wg_interface ≡ false
    pub dns : t.dns_server ≡ false
    pub ingress : t.ingress_gateway_mgr ≡ false
    pub forwarding : t.dns_forward_mgr ≡ none
    pub serial : t.network_serial ≡ s.network_serial
    pub store : IsEmptied t.world

  -- Stop of an engine with a connection manager does not panic. Whether it returns nil or the error of
  -- the state manager, the interface, the DNS server, the DNS forwarder and the ingress gateway are
  -- given up, the serial is what it was, and no peer is left in the store.
  pub stop-IsReleased :
      (s : Running env cfg calls)
      → s.engine.conn_mgr ≡ true
      → ((stop env cfg calls s).0 ≢ panic) × IsReleased s.engine (stop env cfg calls s).1.engine
  stop-IsReleased s h =
      let e1 = stop_services env cfg calls s in
      let (dns, ingress, forwarding, serial, mgr) = stop_services-fields s in
      let removed = (remove_all_peers net peers cfg e1.world).1 in
      let cancelled = where_set env cfg calls s.cancel calls.cancel removed in
      let e2 = close env cfg calls s.rosenpass (record e1 { world = cancelled }) in
      let c = close-fields s.rosenpass (record e1 { world = cancelled }) in
      let flowed = where_set env cfg calls s.flow_manager calls.close_flow_manager e2.world in
      let (o, kept) = finish_stop-Kept flowed in
      subst (λ r. (r.0 ≢ panic) × IsReleased s.engine r.1.engine) (sym (run mgr))
        (
          o,
          record {
            interface = c.0;
            dns = c.1 ∙ dns;
            ingress = c.2 ∙ ingress;
            forwarding = c.3 ∙ forwarding;
            serial = c.4 ∙ serial;
            store = λ k.
                kept k
                ∙ where_set-keeps s.flow_manager calls.close_flow_manager laws.flow_keeps e2.world k
                ∙ close-keeps s.rosenpass (record e1 { world = cancelled }) k
                ∙ where_set-keeps s.cancel calls.cancel laws.cancel_keeps removed k
                ∙ emptied e1.world k;
          },
        )
    where
      run :
          (stop_services env cfg calls s).conn_mgr ≡ s.engine.conn_mgr
          → stop env cfg calls s ≡ (
              let e1 = stop_services env cfg calls s in
              let w =
                where_set env cfg calls s.cancel calls.cancel
                  (remove_all_peers net peers cfg e1.world).1 in
              let e2 = close env cfg calls s.rosenpass (record e1 { world = w }) in
              let (o, w') =
                finish_stop env cfg calls
                  (where_set env cfg calls s.flow_manager calls.close_flow_manager e2.world) in
              (o, record s { engine = record e2 { world = w' } }))
      run mgr = unfold stop in ground (arith, mgr, h)

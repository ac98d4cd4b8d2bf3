-- ===== src/Engine/Stopping/Waiting.antt =====
-- A network map that waits behind Stop of go/internal/engine.go.
use mathlib.Core.Path.{subst}
use netbird_minimal.Common.{
  not, ◌⊎◌, ◌==◌, ◌&&◌, ◌≡◌, sym, ap, ◌∙◌, Bool, true, false, if◌then◌else◌, is_some, ltb,
  Bool-cases, inl, inr,
}
use netbird_minimal.Common.Outcome.{err, panic}
use netbird_minimal.Engine.Netip.{Netip}
use netbird_minimal.Engine.PeerEnv.{PeerEnv, PeerLaws, KeepsStore}
use netbird_minimal.Engine.Peers.{PeerConfig}
use netbird_minimal.Engine.Messages.{NetworkMap}
use netbird_minimal.Engine.SyncEnv.{SyncEnv}
use netbird_minimal.Engine.SyncState.{Engine, wg_interface_missing}
use netbird_minimal.Engine.NetworkMaps.{tell, lazy_flag, update_firewall, update_network_map}
use netbird_minimal.Engine.NetworkMaps.Stopped.{told_before, update_network_map-before}
use netbird_minimal.Engine.Stopping.{StopEnv, Running, stop}
use netbird_minimal.Engine.Stopping.Released.{StopLaws, IsReleased, stop-IsReleased}

module _ {net : Netip} {peers : PeerEnv net} (env : SyncEnv peers) (peer_laws : PeerLaws peers)
    (cfg : PeerConfig) (calls : StopEnv peers.World) (laws : StopLaws peers calls) where
  open env use {SshConfig, PortMessage}

  abbrev Gone : Engine env → Engine env → Type 0
  Gone = IsReleased env peer_laws cfg calls laws

  tell-IsReleased :
      (f : peers.World → peers.World) {s e : Engine env}
      → KeepsStore peers f
      → Gone s e
      → Gone s (tell env cfg f e)
  tell-IsReleased f {e = e} keeps r = record {
    interface = r.interface;
    dns = r.dns;
    ingress = r.ingress;
    forwarding = r.forwarding;
    serial = r.serial;
    store = λ k. keeps e.world k ∙ r.store k;
  }

  -- What a network map tells the connection manager and the firewall leaves the peer store alone.
  pub record MapLaws : Type 0 where
    pub flag_keeps : (b : Bool) → KeepsStore peers (env.updated_remote_feature_flag b)
    pub local_ips_keep : KeepsStore peers env.update_local_ips
    pub legacy_keeps : (b : Bool) → KeepsStore peers (env.set_legacy_management b)

  module _ (map_laws : MapLaws) where
    firewall-IsReleased :
        (m : NetworkMap SshConfig PortMessage) {s e : Engine env}
        → Gone s e
        → Gone s (update_firewall env cfg m e)
    unfolding update_firewall
    firewall-IsReleased m {s} {e} r = split e.firewall e.local_ip_updater
      where
        legacy : Bool
        legacy = m.routes_firewall_rules == 0 && not m.routes_firewall_rules_is_empty

        split :
            (b u : Bool)
            → Gone s (
                if not b
                then e
                else tell env cfg
                    (λ w.
                      env.set_legacy_management
                        (m.routes_firewall_rules == 0 && not m.routes_firewall_rules_is_empty)
                        (if u then env.update_local_ips w else w))
                    e)
        split false u = r
        split true true =
            tell-IsReleased _
              (λ w k.
                map_laws.legacy_keeps legacy (env.update_local_ips w) k
                ∙ map_laws.local_ips_keep w k)
              r
        split true false = tell-IsReleased _ (λ w k. map_laws.legacy_keeps legacy w k) r

    told_before-IsReleased :
        (m : NetworkMap SshConfig PortMessage) {s e : Engine env}
        → Gone s e
        → Gone s (told_before env cfg m e)
    unfolding told_before
    told_before-IsReleased m {s} {e} r = split e.conn_mgr
      where
        flagged : Engine env
        flagged = tell env cfg (env.updated_remote_feature_flag (lazy_flag env cfg m)) e

        split : (b : Bool) → Gone s (if b then update_firewall env cfg m flagged else e)
        split true =
            firewall-IsReleased m (tell-IsReleased _ (map_laws.flag_keeps (lazy_flag env cfg m)) r)
        split false = r

    -- A network map that waits behind Stop of an engine with a connection manager and is not outdated
    -- ends with the error of the missing interface or a panic. It is not applied: the serial, the
    -- interface, the DNS server, the forwarder and the ingress gateway stay as Stop left them, and the
    -- peer store stays empty.
    pub stop-update_network_map :
        (s : Running env cfg calls) (m : NetworkMap SshConfig PortMessage)
        → s.engine.conn_mgr ≡ true
        → ltb m.serial s.engine.network_serial ≡ false
        → let r = update_network_map env cfg m (stop env cfg calls s).1.engine in
          ((r.0 ≡ err wg_interface_missing) ⊎ (r.0 ≡ panic)) × Gone s.engine r.1
    stop-update_network_map s m h new =
        let e = (stop env cfg calls s).1.engine in
        let r = (stop-IsReleased env peer_laws cfg calls laws s h).1 in
        let p =
          update_network_map-before env cfg m e r.interface
            (ap (λ n. ltb m.serial n) r.serial ∙ new) in
        elim (Bool-cases (is_some m.peer_config)) [
          | inl c ↦ (inl (ap (λ x. x.0) (p.0 c)), subst (λ x. Gone s.engine x.1) (sym (p.0 c)) r)
          | inr c ↦ (
            inr (ap (λ x. x.0) (p.1 c)),
            subst (λ x. Gone s.engine x.1) (sym (p.1 c)) (told_before-IsReleased m r),
          )
        ]

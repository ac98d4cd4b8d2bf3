-- ===== src/Engine/NetworkMaps/Stopped.antt =====
-- A network map that reaches updateNetworkMap of go/internal/engine.go after Stop, which closes the
-- WireGuard interface and sets it to nil.
use netbird_minimal.Common.{if◌then◌else◌, ◌≡◌, true, false, arith, ltb, is_some}
use netbird_minimal.Common.Outcome.{err, panic, in_turn}
use netbird_minimal.Engine.Netip.{Netip}
use netbird_minimal.Engine.PeerEnv.{PeerEnv}
use netbird_minimal.Engine.Peers.{PeerConfig}
use netbird_minimal.Engine.Messages.{NetworkMap}
use netbird_minimal.Engine.SyncEnv.{SyncEnv}
use netbird_minimal.Engine.SyncState.{Engine, wg_interface_missing}
use netbird_minimal.Engine.NetworkMaps.{
  tell, lazy_flag, update_config, update_firewall, update_dns, apply_map, update_network_map,
}

module _ {net : Netip} {peers : PeerEnv net} (env : SyncEnv peers) (cfg : PeerConfig) where
  open env use {SshConfig, PortMessage}

  -- What is told before update_dns panics: the flag for lazy connections, and the firewall.
  unfoldable pub told_before : NetworkMap SshConfig PortMessage → Engine env → Engine env
  told_before m e =
      if e.conn_mgr
      then update_firewall env cfg m
          (tell env cfg (env.updated_remote_feature_flag (lazy_flag env cfg m)) e)
      else e

  apply_map-before :
      (m : NetworkMap SshConfig PortMessage) (e : Engine env)
      → e.wg_interface ≡ false
      → apply_map env cfg m e ≡ (panic, told_before m e)
  unfolding apply_map in_turn update_firewall update_dns told_before
  apply_map-before m e h = ground (arith, h)

  -- Without the WireGuard interface a network map that is not outdated is never applied: where it
  -- has a peer configuration updateNetworkMap returns an error and changes nothing, and otherwise
  -- it panics behind what told_before tells.
  pub update_network_map-before :
      (m : NetworkMap SshConfig PortMessage) (e : Engine env)
      → e.wg_interface ≡ false
      → ltb m.serial e.network_serial ≡ false
      → (is_some m.peer_config ≡ true
          → update_network_map env cfg m e ≡ (err wg_interface_missing, e))
        × (is_some m.peer_config ≡ false
            → update_network_map env cfg m e ≡ (panic, told_before m e))
  unfolding update_network_map update_config
  update_network_map-before m e h new =
      (λ p. ground arith, λ p. ground (arith, apply_map-before m e h))

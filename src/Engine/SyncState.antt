-- ===== src/Engine/SyncState.antt =====
-- The fields of Engine of go/internal/engine.go that the handling of a sync response reads or sets.
use netbird_minimal.Common.{ℕ, Bool, Option, List}
use netbird_minimal.Engine.Netip.{Netip}
use netbird_minimal.Engine.PeerEnv.{PeerEnv}
use netbird_minimal.Engine.Peers.{PeerError}
use netbird_minimal.Engine.Messages.{Check, SyncResponse}
use netbird_minimal.Engine.SyncEnv.{SyncEnv}
use netbird_minimal.Common.Outcome.{Act}

-- the errors that handleSync returns
pub data SyncError : Type 0 where
  update_turns_failed update_stuns_failed update_relay_token : SyncError
  flow_interval_is_nil update_flow_failed : SyncError
  sync_meta_failed wg_interface_missing : SyncError
  peer_error : PeerError → SyncError

module _ {net : Netip} {peers : PeerEnv net} (env : SyncEnv peers) where
  -- A Boolean field says that a pointer or an interface of Engine is not nil.
  pub record Engine : Type 0 where
    pub stuns : List env.Uri
    pub turns : List env.Uri
    pub checks : List Check
    pub network_serial : ℕ
    pub wg_interface : Bool
    pub dns_server : Bool
    pub conn_mgr : Bool
    pub firewall : Bool
    -- the firewall implements localIpUpdater
    pub local_ip_updater : Bool
    pub acl : Bool
    pub ingress_gateway_mgr : Bool
    pub dns_forward_mgr : Option env.Forwarder
    pub disable_server_routes : Bool
    pub persist_sync_response : Bool
    pub latest_sync_response : Option (SyncResponse env.SshConfig env.PortMessage)
    pub world : peers.World

  -- a method of Engine that returns an error or nil
  abbrev pub Method : Type 0
  Method = Act Engine SyncError (Unit {0})

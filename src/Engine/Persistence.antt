-- ===== src/Engine/Persistence.antt =====
-- The stored sync response: SetSyncResponsePersistence and GetLatestSyncResponse of
-- go/internal/engine.go. A clone of a message is the message.
use netbird_minimal.Common.{Bool, true, false, not, Option, none, some, if◌then◌else◌}
use netbird_minimal.Engine.Netip.{Netip}
use netbird_minimal.Engine.PeerEnv.{PeerEnv}
use netbird_minimal.Engine.Messages.{SyncResponse}
use netbird_minimal.Engine.SyncEnv.{SyncEnv}
use netbird_minimal.Engine.SyncState.{Engine}

-- `==` on Booleans
unfoldable pub same : Bool → Bool → Bool
same true b = b
same false b = not b

module _ {net : Netip} {peers : PeerEnv net} (env : SyncEnv peers) where
  open env use {SshConfig, PortMessage}

  -- SetSyncResponsePersistence
  unfoldable pub set_sync_response_persistence : Bool → Engine env → Engine env
  unfolding same
  set_sync_response_persistence enabled e =
      if same enabled e.persist_sync_response then e else record e {
        persist_sync_response = enabled;
        latest_sync_response = if not enabled then none else e.latest_sync_response;
      }

  -- GetLatestSyncResponse: `none` is its error, and the inner `none` a nil response
  unfoldable pub get_latest_sync_response :
      Engine env → Option (Option (SyncResponse SshConfig PortMessage))
  get_latest_sync_response e =
      if not e.persist_sync_response then none else some e.latest_sync_response

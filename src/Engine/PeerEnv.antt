-- ===== src/Engine/PeerEnv.antt =====
-- What the peer handling of go/internal/engine.go calls: the peer store, the connection manager,
-- the status recorder, the constructor of connections and util.SliceDiff, with the facts about
-- them that the engine relies on.
use netbird_minimal.Common.{
  ℕ, ◌<◌, String, ◌≡◌, Bool, not, ◌&&◌, Option, none, some, List, if◌then◌else◌, is_some, str_eq,
  contains,
}
use netbird_minimal.Engine.Netip.{Netip}

-- mgmProto.RemotePeerConfig
pub record RemotePeerConfig : Type 0 where
  pub wg_pub_key : String
  pub allowed_ips : List String
  pub fqdn : String
  pub agent_version : String

-- peer.ConnConfig with its WgConfig and RosenpassConfig, over the type of a prefix and of what
-- createICEConfig returns
pub record ConnConfig (Prefix IceConfig : Type 0) : Type 0 where
  pub key : String
  pub local_key : String
  pub agent_version : String
  pub timeout_ms : ℕ
  pub remote_key : String
  pub wg_listen_port : ℕ
  pub allowed_ips : List Prefix
  pub pre_shared_key : Option String
  pub local_wg_port : ℕ
  pub rosenpass_pub_key : Option String
  pub rosenpass_addr : String
  pub permissive_mode : Bool
  pub ice_config : IceConfig

pub record PeerEnv (net : Netip) : Type 1 where
  pub World : Type 0
  pub Conn : Type 0
  pub IceConfig : Type 0
  -- peerstore.Store
  pub peer_conn : World → String → Option Conn
  pub peers_pub_key : World → List String
  pub stored_ips : World → String → Option (List (net.Prefix))
  -- peer.Conn
  pub agent_version_string : Conn → String
  pub set_on_connected : Conn → Conn
  pub set_on_disconnected : Conn → Conn
  pub close_conn : Conn → World → World
  -- peer.NewConn, `none` for its error
  pub new_conn : ConnConfig (net.Prefix) IceConfig → World → Option Conn
  -- rand.Intn
  pub intn : ℕ → World → ℕ × World
  pub create_ice_config : World → IceConfig
  -- ConnMgr; the Boolean is `exists`
  pub add_peer_conn : String → Conn → World → Bool × World
  pub remove_peer_conn : String → World → World
  -- peer.Status; errors are only logged by the engine
  pub status_add_peer : String → String → String → World → World
  pub status_remove_peer : String → World → World
  pub status_update_fqdn : String → String → World → World
  -- util.SliceDiff
  pub slice_diff : List String → List String → List String

-- A call that leaves the peer store alone.
abbrev pub KeepsStore : {net : Netip} (env : PeerEnv net) → (env.World → env.World) → Type 0
KeepsStore env f = (w : env.World) (k : String) → env.peer_conn (f w) k ≡ env.peer_conn w k

-- The documented behaviour of those calls.
pub record PeerLaws {net : Netip} (env : PeerEnv net) : Type 0 where
  -- the configuration that a connection was made with
  pub conn_version : env.Conn → String
  pub conn_ips : env.Conn → List (net.Prefix)
  pub peers_pub_key_lem :
      (w : env.World) (k : String) → contains k (env.peers_pub_key w) ≡ is_some (env.peer_conn w k)
  pub stored_ips_lem :
      (w : env.World) (k : String) {c : env.Conn}
      → env.peer_conn w k ≡ some c
      → env.stored_ips w k ≡ some (conn_ips c)
  pub agent_version_string_lem : (c : env.Conn) → env.agent_version_string c ≡ conn_version c
  pub new_conn_version :
      (cfg : ConnConfig (net.Prefix) (env.IceConfig)) (w : env.World) {c : env.Conn}
      → env.new_conn cfg w ≡ some c
      → conn_version c ≡ cfg.agent_version
  pub new_conn_ips :
      (cfg : ConnConfig (net.Prefix) (env.IceConfig)) (w : env.World) {c : env.Conn}
      → env.new_conn cfg w ≡ some c
      → conn_ips c ≡ cfg.allowed_ips
  pub on_connected_version : (c : env.Conn) → conn_version (env.set_on_connected c) ≡ conn_version c
  pub on_connected_ips : (c : env.Conn) → conn_ips (env.set_on_connected c) ≡ conn_ips c
  pub on_disconnected_version :
      (c : env.Conn) → conn_version (env.set_on_disconnected c) ≡ conn_version c
  pub on_disconnected_ips : (c : env.Conn) → conn_ips (env.set_on_disconnected c) ≡ conn_ips c
  pub intn_lt : (n : ℕ) (w : env.World) → 0 < n → (env.intn n w).0 < n
  pub intn_keeps : (n : ℕ) → KeepsStore env (λ w. (env.intn n w).1)
  pub add_exists :
      (k : String) (c : env.Conn) (w : env.World)
      → (env.add_peer_conn k c w).0 ≡ is_some (env.peer_conn w k)
  pub add_conn :
      (k : String) (c : env.Conn) (w : env.World) (j : String)
      → env.peer_conn w k ≡ none
      → env.peer_conn (env.add_peer_conn k c w).1 j
        ≡ (if str_eq k j then some c else env.peer_conn w j)
  pub remove_conn :
      (k : String) (w : env.World) (j : String)
      → env.peer_conn (env.remove_peer_conn k w) j
        ≡ (if str_eq k j then none else env.peer_conn w j)
  pub status_add_keeps : (k f a : String) → KeepsStore env (env.status_add_peer k f a)
  pub status_remove_keeps : (k : String) → KeepsStore env (env.status_remove_peer k)
  pub status_fqdn_keeps : (k f : String) → KeepsStore env (env.status_update_fqdn k f)
  pub slice_diff_lem :
      (k : String) (xs ys : List String)
      → contains k (env.slice_diff xs ys) ≡ (contains k xs && not (contains k ys))

-- ===== src/Engine/NetworkMaps/Store.antt =====
-- The peers after a network map in updateNetworkMap of go/internal/engine.go.
use mathlib.Core.Path.{subst}
use netbird_minimal.Common.{
  ◌≡◌, refl, sym, ap, ◌∙◌, Bool, true, false, String, List, [], ◌∷◌, map, arith, if◌then◌else◌, ltb,
  Bool-cases, inl, inr, is_some, contains,
}
use netbird_minimal.Common.Outcome.{Outcome, ok, err, panic, and_then, in_turn}
use netbird_minimal.Engine.Netip.{Netip}
use netbird_minimal.Engine.PeerEnv.{RemotePeerConfig, PeerEnv, PeerLaws, KeepsStore}
use netbird_minimal.Engine.Peers.{PeerError, PeerConfig, remove_all_peers, apply_peers}
use netbird_minimal.Engine.Peers.Store.{remove_each_store}
use netbird_minimal.Engine.Peers.Sync.{apply_peers-keys}
use netbird_minimal.Engine.Messages.{NetworkMap}
use netbird_minimal.Engine.SyncEnv.{SyncEnv}
use netbird_minimal.Engine.SyncState.{Engine, Method}
use netbird_minimal.Engine.LazyPeers.{to_excluded_lazy_peers}
use netbird_minimal.Engine.ForwardRules.{Rule, update_forward_rules}
use netbird_minimal.Engine.NetworkMaps.{
  apply_routes, lift_peers, apply_remote_peers, finish_map, apply_changes, apply_map, config_of_map,
  update_network_map,
}
use netbird_minimal.Engine.NetworkMaps.Stages.{Keeps, told_peers, remove_all-run, apply_remote-run}
use netbird_minimal.Engine.NetworkMaps.Serial.{Result, config_of_map-Keeps}

-- What is told behind the peers leaves the peer store alone.
pub record SyncLaws {net : Netip} {peers : PeerEnv net} (env : SyncEnv peers) : Type 0 where
  pub finish_keeps : KeepsStore peers env.finish_peer_list_modifications
  pub host_keys_keep :
      (ps : List RemotePeerConfig) → KeepsStore peers (env.update_peer_ssh_host_keys ps)
  pub client_config_keeps :
      (ps : List RemotePeerConfig) → KeepsStore peers (env.update_ssh_client_config ps)
  pub exclude_keeps : (ks : List String) → KeepsStore peers (env.set_exclude_list ks)
  pub probe_keeps : KeepsStore peers env.probe_availability

module _ {net : Netip} {peers : PeerEnv net} (env : SyncEnv peers) (peer_laws : PeerLaws peers)
    (laws : SyncLaws env) (cfg : PeerConfig) where
  open env use {SshConfig, PortMessage}

  -- The keys that a network map asks for.
  abbrev pub wants : NetworkMap SshConfig PortMessage → String → Bool
  wants m k =
      if m.remote_peers_is_empty then false else contains k (map (λ p. p.wg_pub_key) m.remote_peers)

  -- The store holds exactly these.
  abbrev pub Holds : NetworkMap SshConfig PortMessage → peers.World → Type 0
  Holds m w = (k : String) → is_some (peers.peer_conn w k) ≡ wants m k

  -- Where the method ends without error, they do.
  abbrev pub Ends : NetworkMap SshConfig PortMessage → Method env → Type 0
  Ends m f = (e : Engine env) → (f e).0 ≡ ok tt → Holds m (f e).1.world

  in_turn-Ends :
      (m : NetworkMap SshConfig PortMessage) (f : Method env) (fs : List (Method env))
      → Ends m (in_turn fs)
      → Ends m (in_turn (f ∷ fs))
  unfolding in_turn
  in_turn-Ends m f fs h e = behind (f e)
    where
      behind :
          (r : Result env cfg)
          → (and_then r (λ _. in_turn fs)).0 ≡ ok tt
          → Holds m (and_then r (λ _. in_turn fs)).1.world
      behind (ok u, e') o = h e' o
      behind (err x, e') o = absurd (ground arith)
      behind (panic, e') o = absurd (ground arith)

  -- A last method that keeps the store.
  before_last-Ends :
      (m : NetworkMap SshConfig PortMessage) (f g : Method env)
      → Ends m f
      → ((e : Engine env) → Holds m e.world → Holds m (g e).1.world)
      → Ends m (in_turn (f ∷ g ∷ []))
  unfolding in_turn
  before_last-Ends m f g h k e = behind (f e) (h e)
    where
      last :
          (r : Result env cfg) → Holds m r.1.world → Holds m (and_then r (λ _. in_turn [])).1.world
      last (ok u, e') c = c
      last (err x, e') c = c
      last (panic, e') c = c

      behind :
          (r : Result env cfg)
          → (r.0 ≡ ok tt → Holds m r.1.world)
          → (and_then r (λ _ e'. and_then (g e') (λ _. in_turn []))).0 ≡ ok tt
          → Holds m (and_then r (λ _ e'. and_then (g e') (λ _. in_turn []))).1.world
      behind (ok u, e') c o = last (g e') (k e' (c refl))
      behind (err x, e') c o = absurd (ground arith)
      behind (panic, e') c o = absurd (ground arith)

  last-Ends :
      (m : NetworkMap SshConfig PortMessage) (f : Method env) → Ends m f → Ends m (in_turn (f ∷ []))
  unfolding in_turn
  last-Ends m f h e = behind (f e) (h e)
    where
      behind :
          (r : Result env cfg)
          → (r.0 ≡ ok tt → Holds m r.1.world)
          → (and_then r (λ _. in_turn [])).0 ≡ ok tt
          → Holds m (and_then r (λ _. in_turn [])).1.world
      behind (ok u, e') c o = c refl
      behind (err x, e') c o = absurd (ground arith)
      behind (panic, e') c o = absurd (ground arith)

  -- finish_map keeps the store.
  finish_map-store :
      (rules : List (Rule env)) (m : NetworkMap SshConfig PortMessage) (e : Engine env) (k : String)
      → peers.peer_conn (finish_map env cfg rules m e).1.world k ≡ peers.peer_conn e.world k
  unfolding finish_map
  finish_map-store rules m e k =
      let ex =
        to_excluded_lazy_peers (map (λ r. env.addr_string r.translated_address) rules)
          m.remote_peers in
      ground (
        arith,
        laws.exclude_keeps ex e.world k,
        laws.probe_keeps (env.set_exclude_list ex e.world) k,
      )

  -- After all peers are removed the store is empty.
  removed-Holds :
      (m : NetworkMap SshConfig PortMessage) (w : peers.World)
      → m.remote_peers_is_empty ≡ true
      → Holds m (env.finish_peer_list_modifications (remove_all_peers net peers cfg w).1)
  unfolding remove_all_peers
  removed-Holds m w h k = ground (
    arith,
    laws.finish_keeps (remove_all_peers net peers cfg w).1 k,
    remove_each_store net peers peer_laws cfg (peers.peers_pub_key w) w k,
    peer_laws.peers_pub_key_lem w k,
  )

  told_peers-Holds :
      (m : NetworkMap SshConfig PortMessage) (e : Engine env)
      → Holds m e.world
      → Holds m (told_peers env cfg m e).1.world
  told_peers-Holds m e h k =
      let w1 = env.finish_peer_list_modifications e.world in
      let w2 = env.update_peer_ssh_host_keys m.remote_peers w1 in
      ap is_some (
        laws.client_config_keeps m.remote_peers w2 k
        ∙ laws.host_keys_keep m.remote_peers w1 k
        ∙ laws.finish_keeps e.world k)
      ∙ h k

  apply_remote_peers-Ends :
      (m : NetworkMap SshConfig PortMessage) → Ends m (apply_remote_peers env cfg m)
  apply_remote_peers-Ends m e = elim (Bool-cases m.remote_peers_is_empty) [
    | inl h ↦
        subst (λ r. r.0 ≡ ok tt → Holds m r.1.world) (sym (remove_all-run env cfg m e h))
          (lifted (env.finish_peer_list_modifications (remove_all_peers net peers cfg e.world).1)
            (remove_all_peers net peers cfg e.world).0 (removed-Holds m e.world h))
    | inr h ↦
        subst (λ r. r.0 ≡ ok tt → Holds m r.1.world) (sym (apply_remote-run env cfg m e h))
          (applied h (apply_peers net peers cfg m.remote_peers e.world) refl)
  ]
    where
      lifted :
          (w : peers.World) (o : Outcome PeerError (Unit {0}))
          → Holds m w
          → (lift_peers env cfg (o, w) e).0 ≡ ok tt
          → Holds m (lift_peers env cfg (o, w) e).1.world
      lifted w (ok u) h o = h
      lifted w (err x) h o = h
      lifted w panic h o = h

      applied :
          m.remote_peers_is_empty ≡ false
          → (r : Outcome PeerError (Unit {0}) × peers.World)
          → apply_peers net peers cfg m.remote_peers e.world ≡ r
          → (and_then (lift_peers env cfg r e) (λ _. told_peers env cfg m)).0 ≡ ok tt
          → Holds m (and_then (lift_peers env cfg r e) (λ _. told_peers env cfg m)).1.world
      applied h (ok u, w) q o =
          told_peers-Holds m (record e { world = w })
            (λ k.
              apply_peers-keys net peers peer_laws cfg m.remote_peers e.world q k
              ∙ ground (arith, h))
      applied h (err x, w) q o = absurd (ground arith)
      applied h (panic, w) q o = absurd (ground arith)

  apply_changes-Ends : (m : NetworkMap SshConfig PortMessage) → Ends m (apply_changes env cfg m)
  unfolding apply_changes
  apply_changes-Ends m e =
      let r = update_forward_rules env m.forwarding_rules (apply_routes env cfg m e) in
      in_turn-Ends m _ _
        (before_last-Ends m (apply_remote_peers env cfg m) (finish_map env cfg r.0.0 m)
          (apply_remote_peers-Ends m) (λ e' h k. ap is_some (finish_map-store r.0.0 m e' k) ∙ h k))
        r.1

  apply_map-Ends : (m : NetworkMap SshConfig PortMessage) → Ends m (apply_map env cfg m)
  unfolding apply_map
  apply_map-Ends m =
      in_turn-Ends m _ _
        (in_turn-Ends m _ _ (in_turn-Ends m _ _ (last-Ends m _ (apply_changes-Ends m))))

  -- After a network map that is not outdated is handled without error, the peer store holds exactly
  -- the peers that it lists, or none where it says that there is none.
  pub update_network_map-keys :
      (m : NetworkMap SshConfig PortMessage) (e : Engine env)
      → ltb m.serial e.network_serial ≡ false
      → (update_network_map env cfg m e).0 ≡ ok tt
      → (k : String)
      → is_some (peers.peer_conn (update_network_map env cfg m e).1.world k) ≡ wants m k
  unfolding update_network_map
  update_network_map-keys m e new =
      behind (config_of_map env cfg m e) (config_of_map-Keeps env cfg m e)
    where
      applied :
          (e' : Engine env) (b : Bool)
          → b ≡ false
          → (let r : Result env cfg = if b then (ok tt, e') else apply_map env cfg m e' in r).0
            ≡ ok tt
          → Holds m
              (let r : Result env cfg = if b then (ok tt, e') else apply_map env cfg m e' in
                r).1.world
      applied e' true f o = absurd (ground arith)
      applied e' false f o = apply_map-Ends m e' o

      behind :
          (r : Result env cfg)
          → Keeps env e r.1
          → (and_then r (λ _ e'.
              if ltb m.serial e'.network_serial then (ok tt, e') else apply_map env cfg m e')).0
            ≡ ok tt
          → Holds m
              (and_then r (λ _ e'.
                if ltb m.serial e'.network_serial
                then (ok tt, e')
                else apply_map env cfg m e')).1.world
      behind (ok u, e') c o =
          applied e' (ltb m.serial e'.network_serial) (ap (ltb m.serial) c.serial ∙ new) o
      behind (err x, e') c o = absurd (ground arith)
      behind (panic, e') c o = absurd (ground arith)

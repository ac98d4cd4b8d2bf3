-- ===== src/Engine/Peers/Sync.antt =====
-- The peer store after the peers of a network map were applied.
use netbird_minimal.Common.{
  String, ◌≡◌, sym, ◌∙◌, Bool, true, none, List, [], ◌∷◌, map, arith, if◌then◌else◌, is_some,
  contains, keep,
}
use netbird_minimal.Common.Outcome.{ok, and_then, and_then-ok, and_then-run, each}
use netbird_minimal.Engine.Netip.{Netip}
use netbird_minimal.Engine.PeerEnv.{RemotePeerConfig, PeerEnv, PeerLaws}
use netbird_minimal.Engine.Peers.{
  PeerConfig, add_new_peer, add_new_peers, remove_peer, remove_peers, collect_modified,
  modify_peers, apply_peers,
}
use netbird_minimal.Engine.Peers.Store.{
  remove_each_ok, remove_each_store, remove_peers-store, is_modified, collect-store,
  collect-modified,
}
use netbird_minimal.Engine.Peers.Adding.{key_of, add_list}

module _ (net : Netip) (env : PeerEnv net) (laws : PeerLaws env) (cfg : PeerConfig) where
  open env use {World, Conn, peer_conn, peers_pub_key}
  open laws use {conn_version, conn_ips}

  -- The peers of the update whose stored connection is out of date.
  abbrev pub outdated : List RemotePeerConfig → World → List RemotePeerConfig
  outdated update w = keep (λ p. is_modified net env laws cfg (peer_conn w (key_of p)) p) update

  -- The world in which modifyPeers begins to add, for the world that it began in.
  pub before_adding : List RemotePeerConfig → World → World
  before_adding update w =
      (each (remove_peer net env cfg) (map key_of (outdated update w))
        (collect_modified net env cfg update w).1).1

  pub modify-run :
      (update : List RemotePeerConfig) (w : World)
      → modify_peers net env cfg update w
        ≡ each (add_new_peer net env cfg) (outdated update w) (before_adding update w)
  unfolding modify_peers before_adding
  modify-run update w = rw (collect-modified net env laws cfg update w) (
      and_then-run
        (each (remove_peer net env cfg) (map key_of (outdated update w))
          (collect_modified net env cfg update w).1)
        (λ _. each (add_new_peer net env cfg) (outdated update w))
        (remove_each_ok net env laws cfg (map key_of (outdated update w))
          (collect_modified net env cfg update w).1))

  pub before_adding-store :
      (update : List RemotePeerConfig) (w : World) (j : String)
      → peer_conn (before_adding update w) j
        ≡ (if contains j (map key_of (outdated update w)) then none else peer_conn w j)
  unfolding before_adding
  before_adding-store update w j =
      remove_each_store net env laws cfg (map key_of (outdated update w))
        (collect_modified net env cfg update w).1 j
      ∙ rw (collect-store net env laws cfg update w j)

  -- The world after removePeers.
  unfoldable pub after_removing : List RemotePeerConfig → World → World
  after_removing update w = (remove_peers net env cfg update w).1

  pub remove_peers-ok :
      (update : List RemotePeerConfig) (w : World) → (remove_peers net env cfg update w).0 ≡ ok tt
  unfolding remove_peers
  remove_peers-ok update w = remove_each_ok net env laws cfg _ w

  -- A successful run adds the outdated peers, and then those that are missing.
  pub apply-stages :
      (update : List RemotePeerConfig) (w : World) {w' : World}
      → apply_peers net env cfg update w ≡ (ok tt, w')
      → (v : World) × (each
            (add_new_peer net env cfg)
            (outdated update (after_removing update w))
            (before_adding update (after_removing update w))
          ≡ (ok tt, v))
        × (each (add_new_peer net env cfg) update v ≡ (ok tt, w'))
  unfolding apply_peers add_new_peers after_removing
  apply-stages update w h =
      let w1 = (remove_peers net env cfg update w).1 in
      let (_, v, q, h') =
        and_then-ok (modify_peers net env cfg update w1)
          (λ _. each (add_new_peer net env cfg) update)
          (sym (
              and_then-run (remove_peers net env cfg update w)
                (λ _ u.
                  and_then (modify_peers net env cfg update u)
                    (λ _. each (add_new_peer net env cfg) update))
                (remove_peers-ok update w))
            ∙ h) in
      (v, sym (modify-run update w1) ∙ q, h')

  pub contains-keep :
      (k : String) (f : RemotePeerConfig → Bool) (ps : List RemotePeerConfig)
      → contains k (map key_of (keep f ps)) ≡ true
      → contains k (map key_of ps) ≡ true
  unfolding contains
  contains-keep k f [] h = h
  contains-keep k f (p ∷ ps) h = ground (arith, contains-keep k f ps)

  -- After the peers of a network map were applied without error, the store holds exactly the
  -- peers that the map lists.
  pub apply_peers-keys :
      (update : List RemotePeerConfig) (w : World) {w' : World}
      → apply_peers net env cfg update w ≡ (ok tt, w')
      → (k : String) → is_some (peer_conn w' k) ≡ contains k (map key_of update)
  unfolding after_removing
  apply_peers-keys update w h k =
      let w1 = after_removing update w in
      let (v, q, h') = apply-stages update w h in
      ground (
        arith,
        ((add_list net env laws cfg update v h').0 k).1,
        ((add_list net env laws cfg (outdated update w1) (before_adding update w1) q).0 k).1,
        before_adding-store update w1 k,
        remove_peers-store net env laws cfg update w k,
        contains-keep k (λ p. is_modified net env laws cfg (peer_conn w1 (key_of p)) p) update,
      )

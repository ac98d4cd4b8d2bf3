-- ===== src/Engine/Peers/Store.antt =====
-- What each step of the peer handling does to the peer store.
use netbird_minimal.Common.{
  ◌+◌, String, ◌≡◌, refl, sym, ◌∙◌, Bool, true, false, not, ◌||◌, Option, none, some, List, [], ◌∷◌,
  map, arith, if◌then◌else◌, is_some, str_eq, contains, Option-cases, inl, inr, keep,
}
use mathlib.Core.Path.{fun_ext}
use netbird_minimal.Common.Outcome.{Outcome, ok, err, panic, and_then, each}
use netbird_minimal.Engine.Netip.{Netip}
use netbird_minimal.Engine.NetIpLists.{compare_net_ip_lists}
use netbird_minimal.Engine.PeerEnv.{RemotePeerConfig, PeerEnv, PeerLaws}
use netbird_minimal.Engine.Peers.{
  PeerError, PeerConfig, conn_config, create_peer_conn, parse_allowed_ips, register_peer,
  add_new_peer, remove_peer, remove_peers, inspect, collect_modified,
}

module _ (net : Netip) (env : PeerEnv net) (laws : PeerLaws env) (cfg : PeerConfig) where
  open net use {Prefix}
  open env use {World, Conn, peer_conn, peers_pub_key}
  open laws use {conn_version, conn_ips}

  pub remove_each_ok :
      (ks : List String) (w : World) → (each (remove_peer net env cfg) ks w).0 ≡ ok tt
  unfolding each remove_peer
  remove_each_ok [] w = refl
  remove_each_ok (k ∷ ks) w =
      remove_each_ok ks (env.status_remove_peer k (env.remove_peer_conn k w))

  pub remove_each_store :
      (ks : List String) (w : World) (j : String)
      → peer_conn (each (remove_peer net env cfg) ks w).1 j
        ≡ (if contains j ks then none else peer_conn w j)
  unfolding each remove_peer contains
  remove_each_store [] w j = refl
  remove_each_store (k ∷ ks) w j =
      rw
        (
          remove_each_store ks (env.status_remove_peer k (env.remove_peer_conn k w)) j,
          laws.status_remove_keeps k (env.remove_peer_conn k w) j,
          laws.remove_conn k w j,
        )
        (ground arith)

  -- removePeers keeps the listed peers, and no other.
  pub remove_peers-store :
      (update : List RemotePeerConfig) (w : World) (j : String)
      → peer_conn (remove_peers net env cfg update w).1 j
        ≡ (if contains j (map (λ p. p.wg_pub_key) update) then peer_conn w j else none)
  unfolding remove_peers
  remove_peers-store update w j =
      rw
        (
          remove_each_store (env.slice_diff (peers_pub_key w) (map (λ p. p.wg_pub_key) update)) w j,
          laws.slice_diff_lem j (peers_pub_key w) (map (λ p. p.wg_pub_key) update),
          laws.peers_pub_key_lem w j,
        )
        (ground arith)

  -- Whether modifyPeers finds a stored connection out of date.
  abbrev pub is_modified : Option Conn → RemotePeerConfig → Bool
  is_modified none p = false
  is_modified (some c) p =
      not (str_eq (conn_version c) p.agent_version)
      || not (compare_net_ip_lists net (conn_ips c) p.allowed_ips)

  inspect-store :
      (p : RemotePeerConfig) (w : World) (j : String)
      → peer_conn (inspect net env cfg p w).1 j ≡ peer_conn w j
  unfolding inspect
  inspect-store p w j = ground (arith, laws.status_fqdn_keeps p.wg_pub_key p.fqdn w j)

  inspect-modified :
      (p : RemotePeerConfig) (w : World)
      → (inspect net env cfg p w).0 ≡ is_modified (peer_conn w p.wg_pub_key) p
  unfolding inspect
  inspect-modified p w = elim (Option-cases (peer_conn w p.wg_pub_key)) [
    | inl unknown ↦ ground arith
    | inr (c, e) ↦
        ground (arith, laws.stored_ips_lem w p.wg_pub_key e, laws.agent_version_string_lem c)
  ]

  -- The first loop of modifyPeers changes no connection.
  pub collect-store :
      (ps : List RemotePeerConfig) (w : World) (j : String)
      → peer_conn (collect_modified net env cfg ps w).1 j ≡ peer_conn w j
  unfolding collect_modified
  collect-store [] w j = refl
  collect-store (p ∷ ps) w j = collect-store ps (inspect net env cfg p w).1 j ∙ inspect-store p w j

  -- It collects the peers whose stored connection is out of date.
  pub collect-modified :
      (ps : List RemotePeerConfig) (w : World)
      → (collect_modified net env cfg ps w).0
        ≡ keep (λ p. is_modified (peer_conn w p.wg_pub_key) p) ps
  unfolding collect_modified
  collect-modified [] w = refl
  collect-modified (p ∷ ps) w =
      rw
        (
          collect-modified ps (inspect net env cfg p w).1,
          inspect-modified p w,
          fun_ext (λ j. inspect-store p w j),
        )
        refl

  -- A connection that was made for a peer's configuration.
  abbrev pub Made : Conn → RemotePeerConfig → Type 0
  Made c p =
      (conn_version c ≡ p.agent_version)
      × (parse_allowed_ips net env cfg p.allowed_ips ≡ some (conn_ips c))

  create-Made :
      (p : RemotePeerConfig) (ips : List Prefix) (w : World) {c : Conn} {w' : World}
      → parse_allowed_ips net env cfg p.allowed_ips ≡ some ips
      → create_peer_conn net env cfg p.wg_pub_key ips p.agent_version w ≡ (ok c, w')
      → Made c p × ((j : String) → peer_conn w' j ≡ peer_conn w j)
  unfolding create_peer_conn conn_config
  create-Made p ips w {c} {w'} e h =
      let (r, w1) = env.intn 15000 w in
      let conf =
        conn_config net env cfg p.wg_pub_key ips p.agent_version (r + 30000)
          (env.create_ice_config w1) in
      elim (Option-cases (env.new_conn conf w1)) [
        | inl bad ↦ absurd (ground arith)
        | inr (c0, q) ↦ (
          (
            ground (
              arith,
              laws.new_conn_version conf w1 q,
              laws.on_connected_version c0,
              laws.on_disconnected_version (env.set_on_connected c0),
            ),
            ground (
              arith,
              laws.new_conn_ips conf w1 q,
              laws.on_connected_ips c0,
              laws.on_disconnected_ips (env.set_on_connected c0),
            ),
          ),
          λ j. ground (arith, laws.intn_keeps 15000 w j),
        )
      ]

  -- AddPeer and AddPeerConn of a new connection put that connection into the store.
  register-store :
      (p : RemotePeerConfig) (ips : List Prefix) (c : Conn) (w : World) {w' : World}
      → peer_conn w p.wg_pub_key ≡ none
      → register_peer net env cfg p ips c w ≡ (ok tt, w')
      → (j : String) → peer_conn w' j ≡ (if str_eq p.wg_pub_key j then some c else peer_conn w j)
  unfolding register_peer
  register-store p [] c w new h j = absurd (ground arith)
  register-store p (ip ∷ ips) c w {w'} new h j =
      let w1 = env.status_add_peer p.wg_pub_key p.fqdn (net.addr_string ip) w in
      let same : (k : String) → peer_conn w1 k ≡ peer_conn w k =
        laws.status_add_keeps p.wg_pub_key p.fqdn (net.addr_string ip) w in
      ground (
        arith,
        same j,
        same p.wg_pub_key,
        laws.add_exists p.wg_pub_key c w1,
        laws.add_conn p.wg_pub_key c w1 j,
      )

  -- A peer that the store knows is left alone.
  pub add_known :
      (p : RemotePeerConfig) (w : World)
      → is_some (peer_conn w p.wg_pub_key) ≡ true
      → add_new_peer net env cfg p w ≡ (ok tt, w)
  unfolding add_new_peer
  add_known p w h = ground arith

  -- The connection that a peer which was not in the store got.
  abbrev pub Fresh : RemotePeerConfig → World → World → Type 0
  Fresh p w w' =
      (c : Conn) × Made c p
      × ((j : String) → peer_conn w' j ≡ (if str_eq p.wg_pub_key j then some c else peer_conn w j))

  create-Fresh :
      (p : RemotePeerConfig) (ips : List Prefix) (w : World) {w' : World}
      → peer_conn w p.wg_pub_key ≡ none
      → parse_allowed_ips net env cfg p.allowed_ips ≡ some ips
      → (r : Outcome PeerError Conn × World)
      → create_peer_conn net env cfg p.wg_pub_key ips p.agent_version w ≡ r
      → and_then r (λ c. register_peer net env cfg p ips c) ≡ (ok tt, w')
      → Fresh p w w'
  create-Fresh p ips w new e (ok c, w1) q h =
      let (made, same) = create-Made p ips w e q in
      (c, made, λ j. register-store p ips c w1 (same p.wg_pub_key ∙ new) h j ∙ rw (same j))
  create-Fresh p ips w new e (err x, w1) q h = absurd (ground arith)
  create-Fresh p ips w new e (panic, w1) q h = absurd (ground arith)

  add_new-run :
      (p : RemotePeerConfig) {ips : List Prefix} (w : World)
      → peer_conn w p.wg_pub_key ≡ none
      → parse_allowed_ips net env cfg p.allowed_ips ≡ some ips
      → add_new_peer net env cfg p w
        ≡ and_then
            (create_peer_conn net env cfg p.wg_pub_key ips p.agent_version w)
            (λ c. register_peer net env cfg p ips c)
  unfolding add_new_peer
  add_new-run p {ips} w new e = rw (new, e)

  add_new-parses :
      (p : RemotePeerConfig) (w : World) {w' : World}
      → peer_conn w p.wg_pub_key ≡ none
      → add_new_peer net env cfg p w ≡ (ok tt, w')
      → (ips : List Prefix) × (parse_allowed_ips net env cfg p.allowed_ips ≡ some ips)
  unfolding add_new_peer
  add_new-parses p w new h = elim (Option-cases (parse_allowed_ips net env cfg p.allowed_ips)) [
    | inl bad ↦ absurd (ground arith)
    | inr found ↦ found
  ]

  -- A peer that the store does not know gets a connection for its configuration.
  pub add-Fresh :
      (p : RemotePeerConfig) (w : World) {w' : World}
      → peer_conn w p.wg_pub_key ≡ none
      → add_new_peer net env cfg p w ≡ (ok tt, w')
      → Fresh p w w'
  add-Fresh p w new h =
      let (ips, e) = add_new-parses p w new h in
      create-Fresh p ips w new e (create_peer_conn net env cfg p.wg_pub_key ips p.agent_version w)
        refl (sym (add_new-run p w new e) ∙ h)

-- ===== src/Engine/Peers/Errors.antt =====
-- How the peer handling of go/internal/engine.go ends: when it panics, and when it goes through.
use netbird_minimal.Common.{
  String, ◌≡◌, refl, ap, ◌∙◌, ◌↔◌, true, none, some, List, [], ◌∷◌, arith, if◌then◌else◌, is_some,
  All-keep, ◌+◌, Option-cases, inl, inr, All,
}
use netbird_minimal.Common.Outcome.{Outcome, ok, err, panic, and_then, and_then-run, each}
use netbird_minimal.Engine.Netip.{Netip}
use netbird_minimal.Engine.PeerEnv.{RemotePeerConfig, ConnConfig, PeerEnv, PeerLaws}
use netbird_minimal.Engine.Peers.{
  PeerError, PeerConfig, conn_config, create_peer_conn, parse_allowed_ips, register_peer,
  add_new_peer, add_new_peers, remove_peers, modify_peers, apply_peers,
}
use netbird_minimal.Engine.Peers.Sync.{outdated, before_adding, modify-run, remove_peers-ok}
use netbird_minimal.Engine.Peers.Store.{is_modified}

module _ (net : Netip) (env : PeerEnv net) (cfg : PeerConfig) where
  open net use {Prefix}
  open env use {World, Conn, peer_conn}

  parse_nothing : (ss : List String) → parse_allowed_ips net env cfg ss ≡ some [] → ss ≡ []
  unfolding parse_allowed_ips
  parse_nothing [] h = refl
  parse_nothing (s ∷ ss) h = elim (Option-cases (net.parse_prefix s)) [
    | inl bad ↦ absurd (ground arith)
    | inr (p, e) ↦ elim (Option-cases (parse_allowed_ips net env cfg ss)) [
      | inl bad ↦ absurd (ground arith)
      | inr (ps, f) ↦ absurd (ground arith)
    ]
  ]

  register_panic :
      (p : RemotePeerConfig) (ips : List Prefix) (c : Conn) (w : World)
      → (register_peer net env cfg p ips c w).0 ≡ panic
      → ips ≡ []
  unfolding register_peer
  register_panic p [] c w h = refl
  register_panic p (ip ∷ ips) c w h = absurd (ground arith)

  create_no_panic :
      (k : String) (ips : List Prefix) (v : String) (w : World)
      → (create_peer_conn net env cfg k ips v w).0 ≡ panic
      → ⊥
  unfolding create_peer_conn
  create_no_panic k ips v w h = ground arith

  -- What a panic of addNewPeer rests on.
  abbrev pub NoAllowedIps : RemotePeerConfig → World → Type 0
  NoAllowedIps p w =
      (peer_conn w p.wg_pub_key ≡ none)
      × (p.allowed_ips ≡ [])
      × (c : Conn) × ((create_peer_conn net env cfg p.wg_pub_key [] p.agent_version w).0 ≡ ok c)

  panic_inside :
      (p : RemotePeerConfig) (ips : List Prefix) (r : Outcome PeerError Conn × World)
      → (r.0 ≡ panic → ⊥)
      → (and_then r (λ c. register_peer net env cfg p ips c)).0 ≡ panic
      → (ips ≡ []) × (c : Conn) × (r.0 ≡ ok c)
  panic_inside p ips (ok c, w) safe h = (register_panic p ips c w h, c, refl)
  panic_inside p ips (err e, w) safe h = absurd (ground arith)
  panic_inside p ips (panic, w) safe h = absurd (safe refl)

  add_panics :
      (p : RemotePeerConfig) (w : World)
      → (add_new_peer net env cfg p w).0 ≡ panic
      → NoAllowedIps p w
  unfolding add_new_peer
  add_panics p w h = elim (Option-cases (peer_conn w p.wg_pub_key)) [
    | inr known ↦ absurd (ground arith)
    | inl new ↦ elim (Option-cases (parse_allowed_ips net env cfg p.allowed_ips)) [
      | inl bad ↦ absurd (ground arith)
      | inr (ips, e) ↦
          let r = create_peer_conn net env cfg p.wg_pub_key ips p.agent_version w in
          let (nil, c, made) =
            panic_inside p ips r (create_no_panic p.wg_pub_key ips p.agent_version w)
              (rw (new, e) at h) in
          (new, parse_nothing p.allowed_ips (rw nil at e), c, rw nil at made)
    ]
  ]

  panics_add :
      (p : RemotePeerConfig) (w : World)
      → NoAllowedIps p w
      → (add_new_peer net env cfg p w).0 ≡ panic
  unfolding add_new_peer parse_allowed_ips register_peer
  panics_add p w (new, nothing, c, made) =
      rw (new, nothing)
        (ap (λ r. r.0)
          (and_then-run (create_peer_conn net env cfg p.wg_pub_key [] p.agent_version w)
            (λ d. register_peer net env cfg p [] d) made))

  -- addNewPeer panics exactly for a peer that is not in the store, has no allowed IP at all, and
  -- whose connection is created.
  pub add_new_peer-panic :
      (p : RemotePeerConfig) (w : World)
      → ((add_new_peer net env cfg p w).0 ≡ panic) ↔ NoAllowedIps p w
  add_new_peer-panic p w = (add_panics p w, panics_add p w)

-- A peer that can be added: its allowed IPs parse, and there is one.
abbrev pub IsAddable : (net : Netip) (env : PeerEnv net) → PeerConfig → RemotePeerConfig → Type 0
IsAddable net env cfg p =
    (ip : net.Prefix) × (ips : List (net.Prefix)) × (parse_allowed_ips net env cfg p.allowed_ips
      ≡ some (ip ∷ ips))

module _ (net : Netip) (env : PeerEnv net) (laws : PeerLaws env) (cfg : PeerConfig)
    (created : (c : ConnConfig (net.Prefix) (env.IceConfig)) (w : env.World)
      → is_some (env.new_conn c w) ≡ true) where
  open env use {World, Conn, peer_conn}

  create-ok :
      (k : String) (ips : List (net.Prefix)) (v : String) (w : World)
      → (c : Conn) × ((create_peer_conn net env cfg k ips v w).0 ≡ ok c)
        × ((j : String) → peer_conn (create_peer_conn net env cfg k ips v w).1 j ≡ peer_conn w j)
  unfolding create_peer_conn
  create-ok k ips v w =
      let (r, w1) = env.intn 15000 w in
      let conf = conn_config net env cfg k ips v (r + 30000) (env.create_ice_config w1) in
      elim (Option-cases (env.new_conn conf w1)) [
        | inl bad ↦ absurd (ground (arith, created conf w1))
        | inr (c, q) ↦ (
          if is_some cfg.rp_manager then env.set_on_disconnected (env.set_on_connected c) else c,
          ground arith,
          λ j. ground (arith, laws.intn_keeps 15000 w j),
        )
      ]

  register-ok :
      (p : RemotePeerConfig) (ip : net.Prefix) (ips : List (net.Prefix)) (c : Conn) (w : World)
      → peer_conn w p.wg_pub_key ≡ none
      → (register_peer net env cfg p (ip ∷ ips) c w).0 ≡ ok tt
  unfolding register_peer
  register-ok p ip ips c w new = ground (
    arith,
    laws.status_add_keeps p.wg_pub_key p.fqdn (net.addr_string ip) w p.wg_pub_key,
    laws.add_exists p.wg_pub_key c (env.status_add_peer p.wg_pub_key p.fqdn (net.addr_string ip) w),
  )

  add-ok :
      (p : RemotePeerConfig) (w : World)
      → IsAddable net env cfg p
      → (add_new_peer net env cfg p w).0 ≡ ok tt
  unfolding add_new_peer
  add-ok p w (ip, ips, e) = elim (Option-cases (peer_conn w p.wg_pub_key)) [
    | inr known ↦ ground arith
    | inl new ↦
        let (c, made, same) = create-ok p.wg_pub_key (ip ∷ ips) p.agent_version w in
        rw (new, e)
          (ap (λ r. r.0)
              (and_then-run (create_peer_conn net env cfg p.wg_pub_key (ip ∷ ips) p.agent_version w)
                (λ d. register_peer net env cfg p (ip ∷ ips) d) made)
            ∙ register-ok p ip ips c _ (same p.wg_pub_key ∙ new))
  ]

  add_each-ok :
      (ps : List RemotePeerConfig) (w : World)
      → All (IsAddable net env cfg) ps
      → (each (add_new_peer net env cfg) ps w).0 ≡ ok tt
  unfolding each
  add_each-ok [] w h = refl
  add_each-ok (p ∷ ps) w h =
      ap (λ r. r.0)
        (and_then-run (add_new_peer net env cfg p w) (λ _. each (add_new_peer net env cfg) ps)
          (add-ok p w h.0))
      ∙ add_each-ok ps (add_new_peer net env cfg p w).1 h.1

  -- Where connections can always be created, a map whose peers each have an allowed IP and only
  -- allowed IPs that parse is applied without error.
  pub apply_peers-ok :
      (update : List RemotePeerConfig) (w : World)
      → All (IsAddable net env cfg) update
      → (apply_peers net env cfg update w).0 ≡ ok tt
  unfolding apply_peers add_new_peers
  apply_peers-ok update w h =
      let w1 = (remove_peers net env cfg update w).1 in
      let w3 = before_adding net env laws cfg update w1 in
      ap (λ r. r.0)
        (and_then-run (remove_peers net env cfg update w)
          (λ _ u.
            and_then (modify_peers net env cfg update u)
              (λ _. each (add_new_peer net env cfg) update))
          (remove_peers-ok net env laws cfg update w))
      ∙ ap (λ r. (and_then r (λ _. each (add_new_peer net env cfg) update)).0)
          (modify-run net env laws cfg update w1)
      ∙ ap (λ r. r.0)
          (and_then-run (each (add_new_peer net env cfg) (outdated net env laws cfg update w1) w3)
            (λ _. each (add_new_peer net env cfg) update)
            (add_each-ok (outdated net env laws cfg update w1) w3 (
              All-keep (IsAddable net env cfg)
                (λ p. is_modified net env laws cfg (peer_conn w1 p.wg_pub_key) p) update h)))
      ∙ add_each-ok update _ h

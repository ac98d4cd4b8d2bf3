-- ===== src/Engine/Peers/Current.antt =====
-- The connections after the peers of a network map were applied are current, and those that were
-- current before are still the same.
use mathlib.Core.Path.{subst}
use netbird_minimal.Common.{
  String, ◌≡◌, refl, sym, ◌∙◌, Bool, true, false, ◌||◌, Option, none, some, List, [], ◌∷◌, map,
  arith, if◌then◌else◌, is_some, str_eq, str_eq_iff, str_eq_self, contains, Distinct, Option-cases,
  Bool-cases, inl, inr, keep, All, All-map, All-zip, keep-All,
}
use netbird_minimal.Common.Outcome.{ok}
use netbird_minimal.Engine.Netip.{Netip}
use netbird_minimal.Engine.NetIpLists.Laws.{canonical, SameNets, compare_net_ip_lists_iff}
use netbird_minimal.Engine.PeerEnv.{RemotePeerConfig, PeerEnv, PeerLaws}
use netbird_minimal.Engine.Peers.{PeerConfig, parse_allowed_ips, remove_peers, apply_peers}
use netbird_minimal.Engine.Peers.Store.{remove_peers-store, is_modified, Made}
use netbird_minimal.Engine.Peers.Adding.{key_of, Gained, add_list, not_listed}
use netbird_minimal.Engine.Peers.Sync.{
  outdated, before_adding, before_adding-store, after_removing, apply-stages, contains-keep,
}

module _ (net : Netip) (env : PeerEnv net) (laws : PeerLaws env) (cfg : PeerConfig) where
  open env use {World, Conn, peer_conn, peers_pub_key}
  open laws use {conn_version, conn_ips}

  parsed-canonical :
      (ss : List String) {ps : List (net.Prefix)}
      → parse_allowed_ips net env cfg ss ≡ some ps
      → canonical net ss ≡ some (map (net.prefix_string) ps)
  unfolding parse_allowed_ips canonical
  parsed-canonical [] h = ground arith
  parsed-canonical (s ∷ ss) h = elim (Option-cases (net.parse_prefix s)) [
    | inl bad ↦ absurd (ground arith)
    | inr (p, e) ↦ elim (Option-cases (parse_allowed_ips net env cfg ss)) [
      | inl bad ↦ absurd (ground arith)
      | inr (ps', e') ↦ ground (arith, parsed-canonical ss e')
    ]
  ]

  -- A connection whose configuration is that of the peer.
  abbrev pub IsCurrent : Conn → RemotePeerConfig → Type 0
  IsCurrent c p = (conn_version c ≡ p.agent_version) × SameNets net (conn_ips c) p.allowed_ips

  Made-IsCurrent : (c : Conn) (p : RemotePeerConfig) → Made net env laws cfg c p → IsCurrent c p
  Made-IsCurrent c p (v, i) = (v, (_, parsed-canonical p.allowed_ips i, λ k. refl))

  unmodified-IsCurrent :
      (c : Conn) (p : RemotePeerConfig)
      → is_modified net env laws cfg (some c) p ≡ false
      → IsCurrent c p
  unmodified-IsCurrent c p h = (
    ground (arith, str_eq_iff (conn_version c) p.agent_version),
    (compare_net_ip_lists_iff net (conn_ips c) p.allowed_ips).0 (ground arith),
  )

  IsCurrent-unmodified :
      (c : Conn) (p : RemotePeerConfig)
      → IsCurrent c p
      → is_modified net env laws cfg (some c) p ≡ false
  IsCurrent-unmodified c p (v, same) = ground (
    arith,
    str_eq_iff (conn_version c) p.agent_version,
    (compare_net_ip_lists_iff net (conn_ips c) p.allowed_ips).1 same,
  )

  listed :
      (f : RemotePeerConfig → Bool) (ps : List RemotePeerConfig)
      → Distinct (map key_of ps)
      → All (λ p. contains (key_of p) (map key_of (keep f ps)) ≡ f p) ps
  unfolding contains
  listed f [] d = tt
  listed f (p ∷ ps) d = (
    ground (arith, contains-keep net env laws cfg (key_of p) f ps, str_eq_self (key_of p)),
    All-zip (λ q ne e. later q ne e) ps (not_listed net env laws cfg (key_of p) ps d.0)
        (listed f ps d.1),
  )
    where
      later :
          (q : RemotePeerConfig)
          → str_eq (key_of q) (key_of p) ≡ false
          → contains (key_of q) (map key_of (keep f ps)) ≡ f q
          → contains (key_of q) (map key_of (keep f (p ∷ ps))) ≡ f q
      later q ne e =
          ground (arith, str_eq_iff (key_of q) (key_of p), str_eq_iff (key_of p) (key_of q))

  some-none : (c : Conn) → some c ≡ none → ⊥
  some-none c h = cc

  -- The peer's connection in the end, from the facts about the stages in between.
  IsCurrent-at :
      (p : RemotePeerConfig) (w1 w3 v w' : World)
      → (peer_conn w3 (key_of p) ≡ (
          if is_modified net env laws cfg (peer_conn w1 (key_of p)) p
          then none
          else peer_conn w1 (key_of p)))
      → (is_some (peer_conn v (key_of p)) ≡ (
          is_some (peer_conn w3 (key_of p))
          || is_modified net env laws cfg (peer_conn w1 (key_of p)) p))
      → ((c : Conn) → peer_conn w3 (key_of p) ≡ some c → peer_conn w' (key_of p) ≡ some c)
      → ((c : Conn) → peer_conn v (key_of p) ≡ some c → peer_conn w' (key_of p) ≡ some c)
      → (is_modified net env laws cfg (peer_conn w1 (key_of p)) p ≡ true
          → Gained net env laws cfg w3 v p)
      → Gained net env laws cfg v w' p
      → (c : Conn) × (peer_conn w' (key_of p) ≡ some c) × IsCurrent c p
  IsCurrent-at p w1 w3 v w' st kept g3 gv f1 f2 = elim (Option-cases (peer_conn w3 (key_of p))) [
    | inl gone ↦ elim (Bool-cases (is_modified net env laws cfg (peer_conn w1 (key_of p)) p)) [
      | inl changed ↦ let (c, e, m) = f1 changed gone in (c, gv c e, Made-IsCurrent c p m)
      | inr same ↦
          let (c, e, m) = f2 (is_none (peer_conn v (key_of p)) (rw (gone, same) at kept)) in
          (c, e, Made-IsCurrent c p m)
    ]
    | inr (c, e) ↦
        (c, g3 c e, unmodified-IsCurrent c p (still c (peer_conn w1 (key_of p)) (sym e ∙ st)))
  ]
    where
      is_none : (o : Option Conn) → is_some o ≡ false → o ≡ none
      is_none none e = refl
      is_none (some c) e = cc

      still :
          (c : Conn) (o : Option Conn)
          → some c ≡ (if is_modified net env laws cfg o p then none else o)
          → is_modified net env laws cfg (some c) p ≡ false
      still c o h = elim (Bool-cases (is_modified net env laws cfg o p)) [
        | inl changed ↦ absurd (some-none c (rw changed at h))
        | inr same ↦
            let q : some c ≡ o = rw same at h in
            subst (λ x. is_modified net env laws cfg x p ≡ false) (sym q) same
      ]

  keep-Distinct :
      (f : RemotePeerConfig → Bool) (ps : List RemotePeerConfig)
      → Distinct (map key_of ps)
      → Distinct (map key_of (keep f ps))
  keep-Distinct f [] d = tt
  keep-Distinct f (p ∷ ps) d = elim (Bool-cases (f p)) [
    | inl kept ↦
        rw kept
          (ground (arith, contains-keep net env laws cfg (key_of p) f ps), keep-Distinct f ps d.1)
    | inr dropped ↦ rw dropped (keep-Distinct f ps d.1)
  ]

  all_listed :
      (ps : List RemotePeerConfig) → All (λ p. contains (key_of p) (map key_of ps) ≡ true) ps
  unfolding contains
  all_listed [] = tt
  all_listed (p ∷ ps) =
      (ground (arith, str_eq_self (key_of p)), All-map (λ q e. ground arith) ps (all_listed ps))

  -- After a run without error on a map that lists no peer twice, each listed peer has a
  -- connection made for its agent version and its allowed IPs.
  pub apply_peers-IsCurrent :
      (update : List RemotePeerConfig) (w : World) {w' : World}
      → Distinct (map key_of update)
      → apply_peers net env cfg update w ≡ (ok tt, w')
      → All (λ p. (c : Conn) × (peer_conn w' (key_of p) ≡ some c) × IsCurrent c p) update
  apply_peers-IsCurrent update w {w'} d h =
      let w1 = after_removing net env laws cfg update w in
      let w3 = before_adding net env laws cfg update w1 in
      let (v, q, h') = apply-stages net env laws cfg update w h in
      let (g4, f4) = add_list net env laws cfg (outdated net env laws cfg update w1) w3 q in
      let (g5, f5) = add_list net env laws cfg update v h' in
      let stale =
        λ (p : RemotePeerConfig). is_modified net env laws cfg (peer_conn w1 (key_of p)) p in
      All-zip
        {P = λ p.
          (contains (key_of p) (map key_of (keep stale update)) ≡ stale p)
          × (stale p ≡ true → Gained net env laws cfg w3 v p)}
        (λ p (l, f1) f2.
          IsCurrent-at p w1 w3 v w'
            (rw (← l) (before_adding-store net env laws cfg update w1 (key_of p)))
            (rw (← l) (g4 (key_of p)).1) (λ c e. (g5 (key_of p)).0 c ((g4 (key_of p)).0 c e))
            (λ c e. (g5 (key_of p)).0 c e) f1 f2)
        update
        (All-zip (λ p l f1. (l, f1)) update (listed stale update d)
          (keep-All (Gained net env laws cfg w3 v) stale update
            (f4 (keep-Distinct stale update d))))
        (f5 d)

  -- A connection that is current before a run without error is the same one after it, where the
  -- map lists no peer twice: unchanged peers are not reconnected.
  pub apply_peers-stable :
      (update : List RemotePeerConfig) (w : World) {w' : World}
      → Distinct (map key_of update)
      → apply_peers net env cfg update w ≡ (ok tt, w')
      → All
          (λ p.
            (c : Conn)
            → peer_conn w (key_of p) ≡ some c
            → IsCurrent c p
            → peer_conn w' (key_of p) ≡ some c)
          update
  unfolding after_removing
  apply_peers-stable update w {w'} d h =
      let w1 = after_removing net env laws cfg update w in
      let w3 = before_adding net env laws cfg update w1 in
      let (v, q, h') = apply-stages net env laws cfg update w h in
      let (g4, f4) = add_list net env laws cfg (outdated net env laws cfg update w1) w3 q in
      let (g5, f5) = add_list net env laws cfg update v h' in
      let stale =
        λ (p : RemotePeerConfig). is_modified net env laws cfg (peer_conn w1 (key_of p)) p in
      All-zip
        (λ p l inside c e cur. (g5 (key_of p)).0 c (
          (g4 (key_of p)).0 c (
            stays p c w3 (remove_peers-store net env laws cfg update w (key_of p) ∙ rw inside e) l
              (before_adding-store net env laws cfg update w1 (key_of p)) cur)))
        update (listed stale update d) (all_listed update)
    where
      stays :
          (p : RemotePeerConfig) (c : Conn) (w3 : World)
          → peer_conn (remove_peers net env cfg update w).1 (key_of p) ≡ some c
          → contains
              (key_of p)
              (map key_of (outdated net env laws cfg update (remove_peers net env cfg update w).1))
            ≡ is_modified net env laws cfg
                (peer_conn (remove_peers net env cfg update w).1 (key_of p))
                p
          → peer_conn w3 (key_of p) ≡ (
              if contains (key_of p) (
                map key_of (outdated net env laws cfg update (remove_peers net env cfg update w).1))
              then none
              else peer_conn (remove_peers net env cfg update w).1 (key_of p))
          → IsCurrent c p
          → peer_conn w3 (key_of p) ≡ some c
      stays p c w3 e l st cur = st ∙ rw (l, e) (rw (IsCurrent-unmodified c p cur))

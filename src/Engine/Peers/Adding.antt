-- ===== src/Engine/Peers/Adding.antt =====
-- What adding a list of peers does to the peer store.
use netbird_minimal.Common.{
  String, ◌≡◌, refl, sym, ap, ◌∙◌, false, ◌||◌, Option, none, some, List, [], ◌∷◌, map, arith,
  is_some, str_eq, str_eq_iff, str_eq_self, contains, Distinct, Option-cases, inl, inr, All,
  All-zip,
}
use netbird_minimal.Common.Outcome.{ok, and_then-ok, each}
use netbird_minimal.Engine.Netip.{Netip}
use netbird_minimal.Engine.PeerEnv.{RemotePeerConfig, PeerEnv, PeerLaws}
use netbird_minimal.Engine.Peers.{PeerConfig, add_new_peer}
use netbird_minimal.Engine.Peers.Store.{Made, add_known, add-Fresh}

abbrev pub key_of : RemotePeerConfig → String
key_of p = p.wg_pub_key

module _ (net : Netip) (env : PeerEnv net) (laws : PeerLaws env) (cfg : PeerConfig) where
  open env use {World, Conn, peer_conn, peers_pub_key}
  open laws use {conn_version, conn_ips}

  -- No connection is lost, and the peers of the list are there besides those of before.
  abbrev pub Grown : List String → World → World → Type 0
  Grown ks w w' =
      (j : String)
      → ((c : Conn) → peer_conn w j ≡ some c → peer_conn w' j ≡ some c)
        × (is_some (peer_conn w' j) ≡ (is_some (peer_conn w j) || contains j ks))

  -- The connection of a peer that is made for its configuration.
  abbrev pub Has : World → RemotePeerConfig → Type 0
  Has w p = (c : Conn) × (peer_conn w (key_of p) ≡ some c) × Made net env laws cfg c p

  -- The same, where the peer was not there before.
  abbrev pub Gained : World → World → RemotePeerConfig → Type 0
  Gained w w' p = peer_conn w (key_of p) ≡ none → Has w' p

  add_one :
      (p : RemotePeerConfig) (w : World) {w' : World}
      → add_new_peer net env cfg p w ≡ (ok tt, w')
      → Grown (key_of p ∷ []) w w' × Gained w w' p
  unfolding contains
  add_one p w {w'} h = elim (Option-cases (peer_conn w (key_of p))) [
    | inl new ↦
        let (c, made, st) = add-Fresh net env laws cfg p w new h in
        (
          λ j. (
            λ d e. ground (arith, st j, str_eq_iff (key_of p) j),
            ground (arith, st j, str_eq_iff (key_of p) j),
          ),
          λ n. (c, ground (arith, st (key_of p), str_eq_self (key_of p)), made),
        )
    | inr (c, known) ↦
        let same : w ≡ w' = ap (λ r. r.1) (sym (add_known net env laws cfg p w (rw known)) ∙ h) in
        (
          λ j. (λ d e. rw (← same) e, rw (← same) (ground (arith, str_eq_iff (key_of p) j))),
          λ n. absurd (ground arith),
        )
  ]

  pub not_listed :
      (k : String) (ps : List RemotePeerConfig)
      → contains k (map key_of ps) ≡ false
      → All (λ p. str_eq (key_of p) k ≡ false) ps
  unfolding contains
  not_listed k [] h = tt
  not_listed k (p ∷ ps) h = (ground arith, not_listed k ps (ground arith))

  Gained-later :
      (p q : RemotePeerConfig) (w w1 w' : World)
      → Grown (key_of p ∷ []) w w1
      → Gained w1 w' q
      → str_eq (key_of q) (key_of p) ≡ false
      → Gained w w' q
  unfolding contains
  Gained-later p q w w1 w' g f ne new = f (
      is_none (peer_conn w1 (key_of q)) (
        ground (
          arith,
          (g (key_of q)).1,
          str_eq_iff (key_of q) (key_of p),
          str_eq_iff (key_of p) (key_of q),
        )))
    where
      is_none : (o : Option Conn) → is_some o ≡ false → o ≡ none
      is_none none e = refl
      is_none (some c) e = cc

  pub add_list :
      (ps : List RemotePeerConfig) (w : World) {w' : World}
      → each (add_new_peer net env cfg) ps w ≡ (ok tt, w')
      → Grown (map key_of ps) w w' × (Distinct (map key_of ps) → All (Gained w w') ps)
  unfolding each contains
  add_list [] w {w'} h =
      let same : w ≡ w' = ap (λ r. r.1) h in
      (λ j. (λ c e. rw (← same) e, rw (← same) (ground arith)), λ d. tt)
  add_list (p ∷ ps) w {w'} h =
      let (u, w1, q, rest) =
        and_then-ok (add_new_peer net env cfg p w) (λ _. each (add_new_peer net env cfg) ps) h in
      let (g1, f1) = add_one p w q in
      let (g2, f2) = add_list ps w1 rest in
      (
        λ j. (λ c e. (g2 j).0 c ((g1 j).0 c e), ground (arith, (g2 j).1, (g1 j).1)),
        λ d. (
          λ new. let (c, e, m) = f1 new in (c, (g2 (key_of p)).0 c e, m),
          All-zip (λ q' f ne. Gained-later p q' w w1 w' g1 f ne) ps (f2 d.1)
              (not_listed (key_of p) ps d.0),
        ),
      )

-- ===== src/Engine/LazyPeers/Excluded.antt =====
-- Which peers toExcludedLazyPeers of go/internal/engine.go excludes.
use netbird_minimal.Common.{
  String, ◌≡◌, refl, ap, ◌∙◌, Bool, true, false, none, is_some, All, Bool-cases, inl, inr, not,
  ◌&&◌, ◌||◌, List, [], ◌∷◌, arith, if◌then◌else◌, str_eq, str_eq_iff, contains,
}
use netbird_minimal.Engine.Netip.{Netip}
use netbird_minimal.Engine.PeerEnv.{RemotePeerConfig}
use netbird_minimal.Engine.LazyPeers.{
  exclude, exclude_by_ips, exclude_peers, exclude_all, to_excluded_lazy_peers,
}

-- The text of the address is one of the allowed IPs of a peer of this key.
unfoldable pub lists : String → String → List RemotePeerConfig → Bool
lists key ip [] = false
lists key ip (p ∷ ps) = (str_eq p.wg_pub_key key && contains ip p.allowed_ips) || lists key ip ps

-- So is that of one of the addresses.
unfoldable pub lists_any : String → List String → List RemotePeerConfig → Bool
lists_any key [] ps = false
lists_any key (ip ∷ ips) ps = lists key ip ps || lists_any key ips ps

exclude-contains :
    (k key : String) (ks : List String)
    → contains k (exclude key ks) ≡ (str_eq key k || contains k ks)
unfolding exclude contains
exclude-contains k key ks = ground (arith, str_eq_iff key k)

ips-contains :
    (k ip key : String) (ips ks : List String)
    → contains k (exclude_by_ips ip key ips ks)
      ≡ ((str_eq key k && contains ip ips) || contains k ks)
unfolding exclude_by_ips contains
ips-contains k ip key [] ks = ground arith
ips-contains k ip key (a ∷ rest) ks =
    ips-contains k ip key rest (if not (str_eq a ip) then ks else exclude key ks)
    ∙ ground (arith, exclude-contains k key ks)

peers-contains :
    (k ip : String) (ps : List RemotePeerConfig) (ks : List String)
    → contains k (exclude_peers ip ps ks) ≡ (lists k ip ps || contains k ks)
unfolding exclude_peers lists
peers-contains k ip [] ks = refl
peers-contains k ip (p ∷ ps) ks =
    peers-contains k ip ps (exclude_by_ips ip p.wg_pub_key p.allowed_ips ks)
    ∙ ground (arith, ips-contains k ip p.wg_pub_key p.allowed_ips ks)

all-contains :
    (k : String) (rules : List String) (ps : List RemotePeerConfig) (ks : List String)
    → contains k (exclude_all rules ps ks) ≡ (lists_any k rules ps || contains k ks)
unfolding exclude_all lists_any
all-contains k [] ps ks = refl
all-contains k (ip ∷ ips) ps ks =
    all-contains k ips ps (exclude_peers ip ps ks) ∙ ground (arith, peers-contains k ip ps ks)

-- toExcludedLazyPeers excludes exactly the keys of a peer that has the text of the translated address
-- of a rule among its allowed IPs.
pub to_excluded_lazy_peers_exact :
    (k : String) (rules : List String) (ps : List RemotePeerConfig)
    → contains k (to_excluded_lazy_peers rules ps) ≡ lists_any k rules ps
unfolding to_excluded_lazy_peers contains
to_excluded_lazy_peers_exact k rules ps = ground (arith, all-contains k rules ps [])

module _ (net : Netip) where
  -- addNewPeer can read the allowed IPs of this peer, if it has the key.
  abbrev pub IsAddable : String → RemotePeerConfig → Type 0
  IsAddable k p = p.wg_pub_key ≡ k → All (λ a. is_some (net.parse_prefix a) ≡ true) p.allowed_ips

  parsed-contains :
      (ip : String) (ips : List String)
      → net.parse_prefix ip ≡ none
      → All (λ a. is_some (net.parse_prefix a) ≡ true) ips
      → contains ip ips ≡ false
  unfolding contains
  parsed-contains ip [] n h = refl
  parsed-contains ip (a ∷ rest) n (h, k) = elim (Bool-cases (str_eq a ip)) [
    | inl e ↦ absurd (ground (arith, n, h, ap net.parse_prefix ((str_eq_iff a ip).0 e)))
    | inr e ↦ ground (arith, e, parsed-contains ip rest n k)
  ]

  addable-lists :
      (k ip : String) (ps : List RemotePeerConfig)
      → net.parse_prefix ip ≡ none
      → All (IsAddable k) ps
      → lists k ip ps ≡ false
  unfolding lists
  addable-lists k ip [] n h = refl
  addable-lists k ip (p ∷ ps) n (h, t) = elim (Bool-cases (str_eq p.wg_pub_key k)) [
    | inl e ↦ ground (
      arith,
      addable-lists k ip ps n t,
      parsed-contains ip p.allowed_ips n (h ((str_eq_iff p.wg_pub_key k).0 e)),
    )
    | inr e ↦ ground (arith, e, addable-lists k ip ps n t)
  ]

  addable-lists_any :
      (k : String) (rules : List String) (ps : List RemotePeerConfig)
      → All (λ ip. net.parse_prefix ip ≡ none) rules
      → All (IsAddable k) ps
      → lists_any k rules ps ≡ false
  unfolding lists_any
  addable-lists_any k [] ps n h = refl
  addable-lists_any k (ip ∷ ips) ps (n, t) h =
      ground (arith, addable-lists_any k ips ps t h, addable-lists k ip ps n h)

  -- Where the texts of the translated addresses do not parse as prefixes, since they have no prefix
  -- length, toExcludedLazyPeers excludes no key whose peers all have allowed IPs that addNewPeer can
  -- parse, whichever addresses their networks hold.
  pub to_excluded_lazy_peers_misses :
      (k : String) (rules : List String) (ps : List RemotePeerConfig)
      → All (λ ip. net.parse_prefix ip ≡ none) rules
      → All (IsAddable k) ps
      → contains k (to_excluded_lazy_peers rules ps) ≡ false
  to_excluded_lazy_peers_misses k rules ps n h =
      to_excluded_lazy_peers_exact k rules ps ∙ addable-lists_any k rules ps n h

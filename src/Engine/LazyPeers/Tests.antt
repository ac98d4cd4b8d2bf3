-- ===== src/Engine/LazyPeers/Tests.antt =====
-- One rule and a peer whose network holds its translated address.
use netbird_minimal.Common.{
  String, ◌≡◌, refl, false, none, some, [], ◌∷◌, contains, str_eq, if◌then◌else◌,
}
use netbird_minimal.Engine.Netip.{Netip}
use netbird_minimal.Engine.PeerEnv.{RemotePeerConfig}
use netbird_minimal.Engine.LazyPeers.{
  to_excluded_lazy_peers, exclude_all, exclude_peers, exclude_by_ips, exclude,
}
use netbird_minimal.Engine.LazyPeers.Excluded.{to_excluded_lazy_peers_misses}

-- Prefixes are their texts.
abbrev net : Netip
net = record {
  Prefix = String;
  parse_prefix = λ s. if str_eq s "10.0.0.2/32" then some s else none;
  prefix_string = λ p. p;
  addr_string = λ p. "10.0.0.2";
}

abbrev peer_b : RemotePeerConfig
peer_b = record {
  wg_pub_key = "b";
  fqdn = "b.net";
  allowed_ips = "10.0.0.2/32" ∷ [];
  agent_version = "1";
}

to_excluded_lazy_peers_misses_example :
    contains "b" (to_excluded_lazy_peers ("10.0.0.2" ∷ []) (peer_b ∷ [])) ≡ false
to_excluded_lazy_peers_misses_example =
    to_excluded_lazy_peers_misses net "b" ("10.0.0.2" ∷ []) (peer_b ∷ []) (refl, tt)
      ((λ e. (refl, tt)), tt)

-- The text of an address is excluded.
excluded :
    to_excluded_lazy_peers ("10.0.0.2" ∷ []) (record peer_b { allowed_ips = "10.0.0.2" ∷ [] } ∷ [])
    ≡ "b" ∷ []
unfolding to_excluded_lazy_peers exclude_all exclude_peers exclude_by_ips exclude contains
excluded = refl

-- ===== src/Engine/LazyPeers.antt =====
-- The peers that lazy connections leave out: toExcludedLazyPeers of go/internal/engine.go. A rule is
-- the text of its translated address, and the map is the list of its keys.
pub mod Excluded
mod Tests
use netbird_minimal.Common.{
  String, Bool, true, false, not, List, [], ◌∷◌, if◌then◌else◌, str_eq, contains,
}
use netbird_minimal.Engine.PeerEnv.{RemotePeerConfig}

-- `excludedPeers[key] = true`
unfoldable pub exclude : String → List String → List String
exclude key ks = if contains key ks then ks else key ∷ ks

-- the loop over the allowed IPs of a peer
unfoldable pub exclude_by_ips : String → String → List String → List String → List String
exclude_by_ips ip key [] ks = ks
exclude_by_ips ip key (a ∷ rest) ks =
    exclude_by_ips ip key rest (if not (str_eq a ip) then ks else exclude key ks)

-- the loop over the peers
unfoldable pub exclude_peers : String → List RemotePeerConfig → List String → List String
exclude_peers ip [] ks = ks
exclude_peers ip (p ∷ ps) ks = exclude_peers ip ps (exclude_by_ips ip p.wg_pub_key p.allowed_ips ks)

-- the loop over the rules
unfoldable pub exclude_all : List String → List RemotePeerConfig → List String → List String
exclude_all [] peers ks = ks
exclude_all (ip ∷ ips) peers ks = exclude_all ips peers (exclude_peers ip peers ks)

-- toExcludedLazyPeers
unfoldable pub to_excluded_lazy_peers : List String → List RemotePeerConfig → List String
to_excluded_lazy_peers rules peers = exclude_all rules peers []

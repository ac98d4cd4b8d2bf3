-- ===== src/Engine/Peers/Tests.antt =====
-- Runs of the peer handling, and its theorems at those runs.
use netbird_minimal.Common.{◌≡◌, refl, ◌↔◌, some, [], ◌∷◌, is_some, contains, All}
use netbird_minimal.Common.Dict.{Dict, lookup, insert, erase}
use netbird_minimal.Common.Outcome.{ok, panic, each}
use netbird_minimal.Engine.NetIpLists.{compare_net_ip_lists}
use netbird_minimal.Engine.Peers.{
  add_new_peer, add_new_peers, remove_peer, remove_peers, inspect, collect_modified, modify_peers,
  apply_peers, create_peer_conn, parse_allowed_ips, register_peer, conn_config,
}
use netbird_minimal.Engine.Peers.Adding.{key_of}
use netbird_minimal.Engine.Peers.Sync.{apply_peers-keys}
use netbird_minimal.Engine.Peers.Current.{IsCurrent, apply_peers-IsCurrent, apply_peers-stable}
use netbird_minimal.Engine.Peers.Errors.{NoAllowedIps, add_new_peer-panic, apply_peers-ok}
use netbird_minimal.Engine.Peers.Sample.{
  sample_net, sample_env, sample_laws, sample_config, SampleConn, peer_a, peer_a_new, peer_b,
  peer_bare,
}

-- The store with both peers.
both_peers : Dict SampleConn
unfolding apply_peers add_new_peers remove_peers modify_peers collect_modified inspect add_new_peer
    create_peer_conn parse_allowed_ips register_peer conn_config each remove_peer
    compare_net_ip_lists lookup insert erase contains
both_peers = (apply_peers sample_net sample_env sample_config (peer_a ∷ peer_b ∷ []) []).1

-- The store after peer b left and peer a moved.
moved_peer : Dict SampleConn
unfolding both_peers
moved_peer = (apply_peers sample_net sample_env sample_config (peer_a_new ∷ []) both_peers).1

moved_run :
    apply_peers sample_net sample_env sample_config (peer_a_new ∷ []) both_peers
    ≡ (ok tt, moved_peer)
unfolding moved_peer
moved_run = refl

apply_peers-keys_example : is_some (lookup "b" moved_peer) ≡ contains "b" ("a" ∷ [])
apply_peers-keys_example =
    apply_peers-keys sample_net sample_env sample_laws sample_config (peer_a_new ∷ []) both_peers
      moved_run "b"

apply_peers-IsCurrent_example :
    All
      (λ p.
        (c : SampleConn) × (lookup (key_of p) moved_peer ≡ some c)
        × IsCurrent sample_net sample_env sample_laws sample_config c p)
      (peer_a_new ∷ [])
apply_peers-IsCurrent_example =
    apply_peers-IsCurrent sample_net sample_env sample_laws sample_config (peer_a_new ∷ [])
      both_peers (unfold contains in (refl, tt)) moved_run

-- The store after a map that changes peer a only.
half_moved : Dict SampleConn
unfolding both_peers
half_moved =
    (apply_peers sample_net sample_env sample_config (peer_a_new ∷ peer_b ∷ []) both_peers).1

half_moved_run :
    apply_peers sample_net sample_env sample_config (peer_a_new ∷ peer_b ∷ []) both_peers
    ≡ (ok tt, half_moved)
unfolding half_moved
half_moved_run = refl

apply_peers-stable_example :
    All
      (λ p.
        (c : SampleConn)
        → lookup (key_of p) both_peers ≡ some c
        → IsCurrent sample_net sample_env sample_laws sample_config c p
        → lookup (key_of p) half_moved ≡ some c)
      (peer_a_new ∷ peer_b ∷ [])
apply_peers-stable_example =
    apply_peers-stable sample_net sample_env sample_laws sample_config (peer_a_new ∷ peer_b ∷ [])
      both_peers (unfold contains in (refl, (refl, tt))) half_moved_run

add_new_peer-panic_example :
    ((add_new_peer sample_net sample_env sample_config peer_bare []).0 ≡ panic)
    ↔ NoAllowedIps sample_net sample_env sample_config peer_bare []
add_new_peer-panic_example = add_new_peer-panic sample_net sample_env sample_config peer_bare []

bare_peer_panics : (add_new_peer sample_net sample_env sample_config peer_bare []).0 ≡ panic
unfolding half_moved
bare_peer_panics = refl

apply_peers-ok_example :
    (apply_peers sample_net sample_env sample_config (peer_a_new ∷ peer_b ∷ []) both_peers).0
    ≡ ok tt
unfolding parse_allowed_ips
apply_peers-ok_example =
    apply_peers-ok sample_net sample_env sample_laws sample_config (λ c w. refl)
      (peer_a_new ∷ peer_b ∷ []) both_peers
      (("10.0.0.9/32", [], refl), (("10.0.0.2/32", [], refl), tt))

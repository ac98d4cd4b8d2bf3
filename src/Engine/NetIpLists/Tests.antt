-- ===== src/Engine/NetIpLists/Tests.antt =====
-- compareNetIPLists at two lists in different orders.
use netbird_minimal.Common.{String, ◌≡◌, refl, ◌↔◌, true, false, [], ◌∷◌}
use netbird_minimal.Common.Dict.{lookup, insert}
use netbird_minimal.Engine.Netip.{Netip}
use netbird_minimal.Common.{some}
use netbird_minimal.Engine.NetIpLists.{compare_net_ip_lists}
use netbird_minimal.Engine.NetIpLists.Laws.{SameNets, compare_net_ip_lists_iff}

-- A text is its own prefix.
abbrev texts : Netip
texts = record {
  Prefix = String;
  parse_prefix = λ s. some s;
  prefix_string = λ p. p;
  addr_string = λ p. p;
}

compare_net_ip_lists_iff_example :
    (compare_net_ip_lists texts ("a" ∷ "b" ∷ []) ("b" ∷ "a" ∷ []) ≡ true)
    ↔ SameNets texts ("a" ∷ "b" ∷ []) ("b" ∷ "a" ∷ [])
compare_net_ip_lists_iff_example = compare_net_ip_lists_iff texts ("a" ∷ "b" ∷ []) ("b" ∷ "a" ∷ [])

swapped : compare_net_ip_lists texts ("a" ∷ "b" ∷ []) ("b" ∷ "a" ∷ []) ≡ true
unfolding compare_net_ip_lists lookup insert
swapped = refl

-- The same networks, but not as often.
repeated : compare_net_ip_lists texts ("a" ∷ "b" ∷ []) ("b" ∷ "b" ∷ []) ≡ false
unfolding compare_net_ip_lists lookup insert
repeated = refl

-- ===== src/Engine/NatMappings/Tests.antt =====
-- Two mappings of which one names an interface.
use netbird_minimal.Common.{String, ◌≡◌, none, some, [], ◌∷◌, if◌then◌else◌, str_eq}
use netbird_minimal.Engine.NatMappings.{NatEnv, map_one, parse_nat_external_ip_mappings}
use netbird_minimal.Engine.NatMappings.Whole.{traverse, parse_nat_external_ip_mappings_whole}

abbrev sample : NatEnv
sample = record {
  Ip = String;
  split = λ s. if str_eq s "1.2.3.4/eth0" then ("1.2.3.4", "eth0" ∷ []) else (s, []);
  parse_ip = λ s. if str_eq s "eth0" then none else some s;
  ip_string = λ ip. ip;
  join_slash = λ a b. b;
  find_ip_from_interface_name = λ s. some "10.0.0.1";
}

parse_nat_external_ip_mappings_whole_example :
    parse_nat_external_ip_mappings sample [] ("1.2.3.4/eth0" ∷ "5.6.7.8" ∷ [])
    ≡ elim (traverse (map_one sample []) ("1.2.3.4/eth0" ∷ "5.6.7.8" ∷ [])) [
      | none ↦ []
      | some ys ↦ ys
    ]
parse_nat_external_ip_mappings_whole_example =
    parse_nat_external_ip_mappings_whole sample [] ("1.2.3.4/eth0" ∷ "5.6.7.8" ∷ [])

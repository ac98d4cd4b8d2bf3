-- ===== src/Engine/ForwardRules/Tests.antt =====
-- A run of updateForwardRules on a rule that converts and one that does not, and its theorem there.
use netbird_minimal.Common.{ℕ, String, ◌≡◌, refl, true, false, not, List, [], ◌∷◌, is_empty, length}
use netbird_minimal.Engine.Messages.{ForwardingRule}
use netbird_minimal.Engine.SyncSample.{sample, engine_of}
use netbird_minimal.Engine.SyncState.{Engine}
use netbird_minimal.Engine.ForwardRules.{update_forward_rules}
use netbird_minimal.Engine.ForwardRules.Converts.{Selects, update_forward_rules-Selects}

abbrev rule_of : ℕ → String → ForwardingRule String
rule_of proto address = record {
  protocol = proto;
  destination_port = "80";
  translated_address = address;
  translated_port = "8080";
}

abbrev rules : List (ForwardingRule String)
rules = rule_of 1 "10.0.0.1" ∷ rule_of 1 "bad" ∷ []

abbrev walled : Engine sample
walled = record (engine_of []) { firewall = true }

update_forward_rules-Selects_example :
    let r = update_forward_rules sample rules walled in
    (is_empty rules ≡ false → Selects sample (length r.0.1) rules r.0.0)
    × (r.1.ingress_gateway_mgr ≡ not (is_empty rules))
update_forward_rules-Selects_example = update_forward_rules-Selects sample rules walled refl

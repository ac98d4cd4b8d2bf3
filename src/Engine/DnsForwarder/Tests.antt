-- ===== src/Engine/DnsForwarder/Tests.antt =====
-- A forwarder that always starts.
use netbird_minimal.Common.{ℕ, suc, ◌≡◌, true, false, ◌&&◌, ◌||◌, none, [], ◌∷◌, is_some}
use netbird_minimal.Engine.DnsForwarder.{ForwarderEnv, State, update_dns_forwarder}
use netbird_minimal.Engine.DnsForwarder.Running.{update_dns_forwarder-running}

abbrev sample : ForwarderEnv
sample = record {
  World = ℕ;
  Entry = ℕ;
  Forwarder = ℕ;
  new_manager = λ w. w;
  start = λ f es w. (false, suc w);
  stop = λ f w. (false, w);
  update_domains = λ f es w. w;
}

abbrev idle : State sample
idle = record { dns_forward_mgr = none; world = 0 }

update_dns_forwarder-running_example :
    is_some (update_dns_forwarder sample false true (7 ∷ []) idle).dns_forward_mgr
    ≡ (true && (true && (false || true)))
update_dns_forwarder-running_example = update_dns_forwarder-running sample true (7 ∷ []) idle

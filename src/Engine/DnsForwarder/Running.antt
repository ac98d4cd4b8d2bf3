-- ===== src/Engine/DnsForwarder/Running.antt =====
-- When the DNS forwarder of go/internal/engine.go runs.
use netbird_minimal.Common.{◌≡◌, Bool, false, not, ◌&&◌, ◌||◌, List, arith, is_empty, is_some}
use netbird_minimal.Engine.DnsForwarder.{
  ForwarderEnv, State, start_dns_forwarder, stop_dns_forwarder, update_dns_forwarder,
}

module _ (env : ForwarderEnv) where
  open env use {Entry}

  -- Where server routes are not disabled, the forwarder runs after updateDNSForwarder exactly if it
  -- is enabled, has entries, and ran before or starts without error.
  pub update_dns_forwarder-running :
      (enabled : Bool) (entries : List Entry) (s : State env)
      → is_some (update_dns_forwarder env false enabled entries s).dns_forward_mgr ≡ (
          enabled
          && (not (is_empty entries)
              && (is_some s.dns_forward_mgr
                  || not (env.start (env.new_manager s.world) entries s.world).0)))
  unfolding update_dns_forwarder start_dns_forwarder stop_dns_forwarder
  update_dns_forwarder-running enabled entries s = ground arith

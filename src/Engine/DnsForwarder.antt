-- ===== src/Engine/DnsForwarder.antt =====
-- The DNS forwarder of a routing peer: updateDNSForwarder, startDNSForwarder and stopDNSForwarder of
-- go/internal/engine.go.
pub mod Running
mod Tests
use netbird_minimal.Common.{
  ℕ, Bool, true, false, not, ◌&&◌, Option, none, some, List, [], ◌∷◌, if◌then◌else◌, is_empty,
}

-- the forwarder manager
pub record ForwarderEnv : Type 1 where
  pub World : Type 0
  pub Entry : Type 0
  pub Forwarder : Type 0
  pub new_manager : World → Forwarder
  -- whether it failed
  pub start : Forwarder → List Entry → World → Bool × World
  pub stop : Forwarder → World → Bool × World
  pub update_domains : Forwarder → List Entry → World → World

module _ (env : ForwarderEnv) where
  open env use {World, Entry, Forwarder}

  -- e.dnsForwardMgr, and the rest
  pub record State : Type 0 where
    pub dns_forward_mgr : Option Forwarder
    pub world : World

  -- startDNSForwarder: an error is logged, and there is no manager
  unfoldable pub start_dns_forwarder : List Entry → State → State
  start_dns_forwarder entries s =
      let mgr = env.new_manager s.world in
      let (failed, w) = env.start mgr entries s.world in
      if failed
      then record { dns_forward_mgr = none; world = w }
      else record { dns_forward_mgr = some mgr; world = w }

  -- stopDNSForwarder: an error is only logged
  unfoldable pub stop_dns_forwarder : State → State
  stop_dns_forwarder s = elim s.dns_forward_mgr [
    | none ↦ s
    | some mgr ↦ record { dns_forward_mgr = none; world = (env.stop mgr s.world).1 }
  ]

  -- updateDNSForwarder, for config.DisableServerRoutes
  unfoldable pub update_dns_forwarder : Bool → Bool → List Entry → State → State
  update_dns_forwarder disabled enabled entries s =
      if disabled
      then s
      else (if not enabled
          then stop_dns_forwarder s
          else (if not (is_empty entries)
              then (elim s.dns_forward_mgr [
                | none ↦ start_dns_forwarder entries s
                | some mgr ↦ record s { world = env.update_domains mgr entries s.world }
              ])
              else elim s.dns_forward_mgr [ none ↦ s | some mgr ↦ stop_dns_forwarder s ]))

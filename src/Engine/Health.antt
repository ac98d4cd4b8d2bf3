-- ===== src/Engine/Health.antt =====
-- The health of the client: RunHealthProbes, triggerClientRestart and addrViaRoutes of
-- go/internal/engine.go.
use netbird_minimal.Common.{
  String, ◌≡◌, Bool, true, false, ◌&&◌, Option, none, some, List, [], ◌∷◌, arith, if◌then◌else◌,
}
use netbird_minimal.Common.Dict.{Dict, lookup}

-- What the probes and the restart call.
pub record HealthEnv : Type 1 where
  pub World : Type 0
  pub signal_is_healthy : World → Bool × World
  pub mgm_is_healthy : World → Bool × World
  -- wgInterface.GetStats, `none` for its error
  pub WgStats : Type 0
  pub get_stats : World → Option (Dict WgStats)
  pub peers_pub_key : World → List String
  -- statusRecorder.UpdateWireGuardPeerState, whose error is only logged
  pub update_wire_guard_peer_state : String → WgStats → World → World
  -- probeStunTurn: ProbeAllWaitResult and ProbeAll; a result with whether it has an error
  pub Uri : Type 0
  pub Result : Type 0
  pub probe_all_wait_result : List Uri → List Uri → World → List Result × World
  pub probe_all : List Uri → List Uri → World → List Result × World
  pub has_err : Result → Bool
  pub update_relay_states : List Result → World → World
  -- the context of the engine, the state of the client and the function that cancels its context
  pub ctx_err : World → Bool
  pub set_status_connecting : World → World
  pub wrap_reset_connection : World → World
  pub client_cancel : World → World

module _ (env : HealthEnv) where
  open env use {World, WgStats, Uri, Result}

  -- the loop over the keys of the peer store; a peer without stats is left out
  unfoldable pub update_peer_states : Dict WgStats → List String → World → World
  update_peer_states stats [] w = w
  update_peer_states stats (k ∷ ks) w =
      update_peer_states stats ks
        (elim (lookup k stats) [ none ↦ w | some s ↦ env.update_wire_guard_peer_state k s w ])

  -- the loop over the results
  unfoldable pub relay_healthy : List Result → Bool
  relay_healthy [] = true
  relay_healthy (r ∷ rs) = let rest = relay_healthy rs in if env.has_err r then false else rest

  -- RunHealthProbes, with whether there is an interface
  unfoldable pub run_health_probes : Bool → List Uri → List Uri → Bool → World → Bool × World
  unfolding update_peer_states relay_healthy
  run_health_probes wg_interface stuns turns wait_for_result w =
      let (signal_healthy, w1) = env.signal_is_healthy w in
      let (management_healthy, w2) = env.mgm_is_healthy w1 in
      let stats : Option (Dict WgStats) = if wg_interface then env.get_stats w2 else some [] in
      elim stats [
        | none ↦ (false, w2)
        | some m ↦
            let w3 = if wg_interface then update_peer_states m (env.peers_pub_key w2) w2 else w2 in
            let (results, w4) =
              (if wait_for_result
                then env.probe_all_wait_result stuns turns w3
                else env.probe_all stuns turns w3) in
            (
              signal_healthy && management_healthy && relay_healthy results,
              env.update_relay_states results w4,
            )
      ]

  -- triggerClientRestart
  unfoldable pub trigger_client_restart : World → World
  trigger_client_restart w =
      if env.ctx_err w
      then w
      else env.client_cancel (env.wrap_reset_connection (env.set_status_connecting w))

  -- The context of the engine is derived from that of the client.
  pub record HealthLaws : Type 0 where
    pub cancel_lem : (w : World) → env.ctx_err (env.client_cancel w) ≡ true

  -- A second restart changes nothing, so that two detected changes cancel the client once.
  pub trigger_client_restart-once :
      HealthLaws
      → (w : World) → trigger_client_restart (trigger_client_restart w) ≡ trigger_client_restart w
  unfolding trigger_client_restart
  trigger_client_restart-once laws w =
      ground (arith, laws.cancel_lem (env.wrap_reset_connection (env.set_status_connecting w)))

-- addrViaRoutes over the client routes of the route manager, each a non-nil route's network or
-- nil, with systemops.IsAddrRouted, whose answer is `none` where the address is not routed
module _ {Addr Prefix : Type 0} (is_addr_routed : Addr → List Prefix → Option Prefix) where
  -- the networks of the first routes
  unfoldable pub vpn_routes : Dict (List (Option Prefix)) → List Prefix
  vpn_routes [] = []
  vpn_routes ((id, routes) ∷ m) =
      let rest = vpn_routes m in
      elim routes [ [] ↦ rest | r ∷ rs ↦ elim r [ none ↦ rest | some p ↦ p ∷ rest ] ]

  unfoldable pub addr_via_routes : Addr → Dict (List (Option Prefix)) → Option Prefix
  unfolding vpn_routes
  addr_via_routes addr m = is_addr_routed addr (vpn_routes m)

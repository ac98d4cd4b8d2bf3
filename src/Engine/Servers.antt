-- ===== src/Engine/Servers.antt =====
-- The servers of a NetbirdConfig: updateSTUNs, updateTURNs, handleRelayUpdate, handleFlowUpdate,
-- toFlowLoggerConfig and PopulateNetbirdConfig of go/internal/engine.go.
pub mod Whole
use netbird_minimal.Common.{
  ℕ, String, Bool, true, false, not, Option, none, some, List, [], ◌∷◌, ◌++◌, if◌then◌else◌,
  is_empty,
}
use netbird_minimal.Common.Outcome.{Outcome, ok, err, panic}
use netbird_minimal.Engine.Netip.{Netip}
use netbird_minimal.Engine.PeerEnv.{PeerEnv}
use netbird_minimal.Engine.Messages.{ProtectedHostConfig, RelayConfig, FlowConfig, NetbirdConfig}
use netbird_minimal.Engine.Converted.{FlowLoggerConfig}
use netbird_minimal.Engine.SyncEnv.{SyncEnv}
use netbird_minimal.Engine.SyncState.{
  SyncError, Engine, Method, update_turns_failed, update_stuns_failed, update_relay_token,
  flow_interval_is_nil, update_flow_failed,
}

-- toFlowLoggerConfig, `none` for its error
unfoldable pub to_flow_logger_config : FlowConfig → Option FlowLoggerConfig
to_flow_logger_config c = elim c.interval [
  | none ↦ none
  | some interval ↦ some record {
    enabled = c.enabled;
    counters = c.counters;
    url = c.url;
    token_payload = c.token_payload;
    token_signature = c.token_signature;
    interval = interval;
    dns_collection = c.dns_collection;
    exit_node_collection = c.exit_node_collection;
  }
]

module _ {net : Netip} {peers : PeerEnv net} (env : SyncEnv peers) where
  open env use {Uri, parse_uri, set_credentials}

  -- the loop of updateSTUNs, `none` where it returns an error
  unfoldable pub parse_stuns : List String → Option (List Uri)
  parse_stuns [] = some []
  parse_stuns (s ∷ ss) =
      let rest = parse_stuns ss in
      elim (parse_uri s) [
        | none ↦ none
        | some u ↦ elim rest [ none ↦ none | some us ↦ some (u ∷ us) ]
      ]

  -- updateSTUNs
  unfoldable pub update_stuns : List String → Method env
  update_stuns stuns e = if is_empty stuns then (ok tt, e) else (elim (parse_stuns stuns) [
    | none ↦ (err update_stuns_failed, e)
    | some us ↦ (ok tt, record e { stuns = us })
  ])

  -- the loop of updateTURNs; a missing HostConfig is a nil pointer
  unfoldable pub parse_turns : List ProtectedHostConfig → Outcome (Unit {0}) (List Uri)
  parse_turns [] = ok []
  parse_turns (t ∷ ts) =
      let rest = parse_turns ts in
      elim t.host_uri [
        | none ↦ panic
        | some s ↦ elim (parse_uri s) [
          | none ↦ err tt
          | some u ↦ elim rest [
            | ok us ↦ ok (set_credentials t.user t.password u ∷ us)
            | err x ↦ err x
            | panic ↦ panic
          ]
        ]
      ]

  -- updateTURNs
  unfoldable pub update_turns : List ProtectedHostConfig → Method env
  update_turns turns e = if is_empty turns then (ok tt, e) else (elim (parse_turns turns) [
    | ok us ↦ (ok tt, record e { turns = us })
    | err x ↦ (err update_turns_failed, e)
    | panic ↦ (panic, e)
  ])

  -- handleRelayUpdate; what Serve returns is ignored
  unfoldable pub handle_relay_update : Option RelayConfig → Method env
  handle_relay_update none e = (ok tt, record e { world = env.update_server_urls [] e.world })
  handle_relay_update (some update) e =
      let (failed, w) = env.update_token update.token_payload update.token_signature e.world in
      if failed
      then (err update_relay_token, record e { world = w })
      else (ok tt, record e { world = env.serve (env.update_server_urls update.urls w) })

  -- handleFlowUpdate
  unfoldable pub handle_flow_update : Option FlowConfig → Method env
  unfolding to_flow_logger_config
  handle_flow_update none e = (ok tt, e)
  handle_flow_update (some config) e = elim (to_flow_logger_config config) [
    | none ↦ (err flow_interval_is_nil, e)
    | some c ↦
        let (failed, w) = env.update_flow c e.world in
        (if failed then err update_flow_failed else ok tt, record e { world = w })
  ]

  -- PopulateNetbirdConfig for a configuration and no URL; an error is only logged by its caller
  unfoldable pub populate_netbird_config : NetbirdConfig → Engine env → Engine env
  populate_netbird_config config e =
      if not e.dns_server then e else record e { world = env.update_server_config config e.world }

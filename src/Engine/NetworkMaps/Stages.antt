-- ===== src/Engine/NetworkMaps/Stages.antt =====
-- What the stages of handleSync of go/internal/engine.go leave alone: the serial, and the stored
-- sync response.
use netbird_minimal.Common.{
  String, ◌≡◌, refl, sym, ◌∙◌, true, false, Option, List, arith, All, Bool-cases, inl, inr,
}
use mathlib.Core.Path.{subst}
use netbird_minimal.Common.Outcome.{Outcome, ok, err, panic, and_then, in_turn, in_turn-All}
use netbird_minimal.Engine.Netip.{Netip}
use netbird_minimal.Engine.PeerEnv.{PeerEnv}
use netbird_minimal.Engine.Peers.{PeerError, PeerConfig, remove_all_peers, apply_peers}
use netbird_minimal.Engine.Messages.{
  ProtectedHostConfig, RelayConfig, FlowConfig, NetbirdConfig, Check, PeerConfigMessage,
  ForwardingRule, NetworkMap,
}
use netbird_minimal.Engine.SyncEnv.{SyncEnv}
use netbird_minimal.Engine.SyncState.{SyncError, Engine, Method}
use netbird_minimal.Engine.Servers.{
  update_stuns, update_turns, handle_relay_update, handle_flow_update, populate_netbird_config,
}
use netbird_minimal.Engine.Checks.{update_checks_if_new}
use netbird_minimal.Engine.ForwardRules.{with_ingress, update_forward_rules}
use netbird_minimal.Engine.NetworkMaps.{
  tell, update_config, update_firewall, update_dns, apply_routes, lift_peers, apply_remote_peers,
  handle_config,
}

module _ {net : Netip} {peers : PeerEnv net} (env : SyncEnv peers) where
  open env use {SshConfig, PortMessage}

  -- The serial and the stored response are those of before.
  pub record Keeps (e e' : Engine env) : Type 0 where
    pub serial : e'.network_serial ≡ e.network_serial
    pub persist : e'.persist_sync_response ≡ e.persist_sync_response
    pub latest : e'.latest_sync_response ≡ e.latest_sync_response

  pub Keeps-refl : (a : Engine env) → Keeps a a
  Keeps-refl a = record { serial = refl; persist = refl; latest = refl }

  pub Keeps-trans : (a b c : Engine env) → Keeps a b → Keeps b c → Keeps a c
  Keeps-trans a b c h k = record {
    serial = k.serial ∙ h.serial;
    persist = k.persist ∙ h.persist;
    latest = k.latest ∙ h.latest;
  }

  -- Every run of the method keeps them.
  abbrev pub MethodKeeps : Method env → Type 0
  MethodKeeps f = (e : Engine env) → Keeps e (f e).1

  pub in_turn-Keeps : (fs : List (Method env)) → All MethodKeeps fs → MethodKeeps (in_turn fs)
  in_turn-Keeps = in_turn-All Keeps Keeps-refl Keeps-trans

  pub update_stuns-Keeps : (s : List String) (e : Engine env) → Keeps e (update_stuns env s e).1
  unfolding update_stuns
  update_stuns-Keeps s e = record {
    serial = ground arith;
    persist = ground arith;
    latest = ground arith;
  }

  pub update_turns-Keeps :
      (s : List ProtectedHostConfig) (e : Engine env) → Keeps e (update_turns env s e).1
  unfolding update_turns
  update_turns-Keeps s e = record {
    serial = ground arith;
    persist = ground arith;
    latest = ground arith;
  }

  pub handle_relay_update-Keeps :
      (r : Option RelayConfig) (e : Engine env) → Keeps e (handle_relay_update env r e).1
  unfolding handle_relay_update
  handle_relay_update-Keeps r e = record {
    serial = ground arith;
    persist = ground arith;
    latest = ground arith;
  }

  pub handle_flow_update-Keeps :
      (c : Option FlowConfig) (e : Engine env) → Keeps e (handle_flow_update env c e).1
  unfolding handle_flow_update
  handle_flow_update-Keeps c e = record {
    serial = ground arith;
    persist = ground arith;
    latest = ground arith;
  }

  pub populate_netbird_config-Keeps :
      (c : NetbirdConfig) (e : Engine env) → Keeps e (populate_netbird_config env c e)
  unfolding populate_netbird_config
  populate_netbird_config-Keeps c e = record {
    serial = ground arith;
    persist = ground arith;
    latest = ground arith;
  }

  pub update_checks-Keeps :
      (c : List Check) (e : Engine env) → Keeps e (update_checks_if_new env c e).1
  unfolding update_checks_if_new
  update_checks-Keeps c e = record {
    serial = ground arith;
    persist = ground arith;
    latest = ground arith;
  }

  pub update_forward_rules-Keeps :
      (rules : List (ForwardingRule PortMessage)) (e : Engine env)
      → Keeps e (update_forward_rules env rules e).1
  unfolding update_forward_rules with_ingress
  update_forward_rules-Keeps rules e = record {
    serial = ground arith;
    persist = ground arith;
    latest = ground arith;
  }

  module _ (cfg : PeerConfig) where
    pub update_config-Keeps :
        (c : PeerConfigMessage SshConfig) (e : Engine env) → Keeps e (update_config env cfg c e).1
    unfolding update_config
    update_config-Keeps c e = record {
      serial = ground arith;
      persist = ground arith;
      latest = ground arith;
    }

    pub update_firewall-Keeps :
        (m : NetworkMap SshConfig PortMessage) (e : Engine env)
        → Keeps e (update_firewall env cfg m e)
    unfolding update_firewall
    update_firewall-Keeps m e = record {
      serial = ground arith;
      persist = ground arith;
      latest = ground arith;
    }

    pub update_dns-Keeps :
        (m : NetworkMap SshConfig PortMessage) (e : Engine env) → Keeps e (update_dns env cfg m e).1
    unfolding update_dns
    update_dns-Keeps m e = record {
      serial = ground arith;
      persist = ground arith;
      latest = ground arith;
    }

    pub apply_routes-Keeps :
        (m : NetworkMap SshConfig PortMessage) (e : Engine env) → Keeps e (apply_routes env cfg m e)
    unfolding apply_routes
    apply_routes-Keeps m e = record { serial = refl; persist = refl; latest = refl }

    lift_peers-Keeps :
        (r : Outcome PeerError (Unit {0}) × peers.World) (e : Engine env)
        → Keeps e (lift_peers env cfg r e).1
    lift_peers-Keeps (ok u, w) e = record { serial = refl; persist = refl; latest = refl }
    lift_peers-Keeps (err x, w) e = record { serial = refl; persist = refl; latest = refl }
    lift_peers-Keeps (panic, w) e = record { serial = refl; persist = refl; latest = refl }

    -- The peers' part where all peers are removed.
    pub remove_all-run :
        (m : NetworkMap SshConfig PortMessage) (e : Engine env)
        → m.remote_peers_is_empty ≡ true
        → apply_remote_peers env cfg m e ≡ (
            let (o, w) = remove_all_peers net peers cfg e.world in
            lift_peers env cfg (o, env.finish_peer_list_modifications w) e)
    unfolding apply_remote_peers
    remove_all-run m e h = ground arith

    -- What is told behind the peers that were applied.
    abbrev pub told_peers : NetworkMap SshConfig PortMessage → Method env
    told_peers m e = (
      ok tt,
      tell env cfg
          (λ w.
            env.update_ssh_client_config m.remote_peers
              (env.update_peer_ssh_host_keys m.remote_peers (env.finish_peer_list_modifications w)))
          e,
    )

    pub apply_remote-run :
        (m : NetworkMap SshConfig PortMessage) (e : Engine env)
        → m.remote_peers_is_empty ≡ false
        → apply_remote_peers env cfg m e
          ≡ and_then
              (lift_peers env cfg (apply_peers net peers cfg m.remote_peers e.world) e)
              (λ _. told_peers m)
    unfolding apply_remote_peers
    apply_remote-run m e h = ground arith

    pub apply_remote_peers-Keeps :
        (m : NetworkMap SshConfig PortMessage) (e : Engine env)
        → Keeps e (apply_remote_peers env cfg m e).1
    apply_remote_peers-Keeps m e =
        let all = remove_all_peers net peers cfg e.world in
        elim (Bool-cases m.remote_peers_is_empty) [
          | inl h ↦
              subst (λ r. Keeps e r.1) (sym (remove_all-run m e h))
                (lift_peers-Keeps (all.0, env.finish_peer_list_modifications all.1) e)
          | inr h ↦
              subst (λ r. Keeps e r.1) (sym (apply_remote-run m e h))
                (behind (lift_peers env cfg (apply_peers net peers cfg m.remote_peers e.world) e)
                  (lift_peers-Keeps (apply_peers net peers cfg m.remote_peers e.world) e))
        ]
      where
        behind :
            (r : Outcome SyncError (Unit {0}) × Engine env)
            → Keeps e r.1
            → Keeps e (and_then r (λ _. told_peers m)).1
        behind (ok u, v) k =
            Keeps-trans e v (told_peers m v).1 k
              (record { serial = refl; persist = refl; latest = refl })
        behind (err x, v) k = k
        behind (panic, v) k = k

    pub handle_config-Keeps : (c : NetbirdConfig) → MethodKeeps (handle_config env cfg c)
    unfolding handle_config
    handle_config-Keeps c = in_turn-Keeps _ (
      update_turns-Keeps c.turns,
      (
        update_stuns-Keeps c.stuns,
        (
          (λ e. record { serial = refl; persist = refl; latest = refl }),
          (
            handle_relay_update-Keeps c.relay,
            (handle_flow_update-Keeps c.flow, ((λ e. populate_netbird_config-Keeps c e), tt)),
          ),
        ),
      ),
    )

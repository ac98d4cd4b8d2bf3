-- ===== src/Engine/NetworkMaps/Serial.antt =====
-- The serial of the network map in handleSync of go/internal/engine.go.
use netbird_minimal.Common.{
  ℕ, ◌≤◌, ◌≡◌, ◌≢◌, refl, ap, ◌∙◌, Bool, true, false, Option, none, some, List, [], ◌∷◌, arith,
  if◌then◌else◌, ltb, Bool-cases, inl, inr, ◌⊎◌,
}
use netbird_minimal.Common.Outcome.{Outcome, ok, err, panic, and_then, in_turn}
use netbird_minimal.Engine.Netip.{Netip}
use netbird_minimal.Engine.PeerEnv.{PeerEnv}
use netbird_minimal.Engine.Peers.{PeerConfig}
use netbird_minimal.Engine.Messages.{PeerConfigMessage, NetworkMap}
use netbird_minimal.Engine.SyncEnv.{SyncEnv}
use netbird_minimal.Engine.SyncState.{SyncError, Engine, Method}
use netbird_minimal.Engine.ForwardRules.{Rule, update_forward_rules}
use netbird_minimal.Engine.NetworkMaps.{
  update_config, apply_routes, finish_map, with_conn_mgr, apply_changes, apply_map, config_of_map,
  update_network_map,
}
use netbird_minimal.Engine.NetworkMaps.Stages.{
  Keeps, Keeps-trans, MethodKeeps, update_config-Keeps, update_firewall-Keeps, update_dns-Keeps,
  apply_routes-Keeps, update_forward_rules-Keeps, apply_remote_peers-Keeps,
}

module _ {net : Netip} {peers : PeerEnv net} (env : SyncEnv peers) (cfg : PeerConfig) where
  open env use {SshConfig, PortMessage}

  abbrev pub Result : Type 0
  Result = Outcome SyncError (Unit {0}) × Engine env

  -- A map of serial `n` was applied, or its application ended before the serial was stored; the
  -- stored response is the one of before.
  pub record Takes (n : ℕ) (e : Engine env) (r : Result) : Type 0 where
    pub persist : r.1.persist_sync_response ≡ e.persist_sync_response
    pub latest : r.1.latest_sync_response ≡ e.latest_sync_response
    pub serial :
        (r.1.network_serial ≡ n) ⊎ ((r.1.network_serial ≡ e.network_serial) × (r.0 ≢ ok tt))

  Takes-after :
      (n : ℕ) (e e' : Engine env) (r : Result) → Keeps env e e' → Takes n e' r → Takes n e r
  Takes-after n e e' r k t = record {
    persist = t.persist ∙ k.persist;
    latest = t.latest ∙ k.latest;
    serial = elim t.serial [ inl u ↦ inl u | inr (u, v) ↦ inr (u ∙ k.serial, v) ];
  }

  -- A method that takes the map's serial.
  abbrev pub MethodTakes : ℕ → Method env → Type 0
  MethodTakes n f = (e : Engine env) → Takes n e (f e)

  and_then-Takes :
      (n : ℕ) (e : Engine env) (r : Result) (k : Method env)
      → Keeps env e r.1
      → MethodTakes n k
      → Takes n e (and_then r (λ _. k))
  and_then-Takes n e (ok u, e') k h g = Takes-after n e e' (k e') h (g e')
  and_then-Takes n e (err x, e') k h g = record {
    persist = h.persist;
    latest = h.latest;
    serial = inr (h.serial, λ c. ground arith);
  }
  and_then-Takes n e (panic, e') k h g = record {
    persist = h.persist;
    latest = h.latest;
    serial = inr (h.serial, λ c. ground arith);
  }

  in_turn-Takes :
      (n : ℕ) (f : Method env) (fs : List (Method env))
      → MethodKeeps env f
      → MethodTakes n (in_turn fs)
      → MethodTakes n (in_turn (f ∷ fs))
  unfolding in_turn
  in_turn-Takes n f fs k t e = and_then-Takes n e (f e) (in_turn fs) (k e) t

  last-Takes : (n : ℕ) (f : Method env) → MethodTakes n f → MethodTakes n (in_turn (f ∷ []))
  unfolding in_turn
  last-Takes n f t e = last (f e) (t e)
    where
      last : (r : Result) → Takes n e r → Takes n e (and_then r (λ _. in_turn []))
      last (ok u, e') k = k
      last (err x, e') k = k
      last (panic, e') k = k

  finish_map-Takes :
      (rules : List (Rule env)) (m : NetworkMap SshConfig PortMessage)
      → MethodTakes m.serial (finish_map env cfg rules m)
  unfolding finish_map
  finish_map-Takes rules m e = elim (Bool-cases e.conn_mgr) [
    | inr h ↦ record {
      persist = ground arith;
      latest = ground arith;
      serial = inr (ground arith, λ c. ground arith);
    }
    | inl h ↦ record { persist = ground arith; latest = ground arith; serial = inl (ground arith) }
  ]

  apply_changes-Takes :
      (m : NetworkMap SshConfig PortMessage) → MethodTakes m.serial (apply_changes env cfg m)
  unfolding apply_changes
  apply_changes-Takes m e =
      let e1 = apply_routes env cfg m e in
      let r = update_forward_rules env m.forwarding_rules e1 in
      Takes-after m.serial e r.1 _
        (Keeps-trans env e e1 r.1 (apply_routes-Keeps env cfg m e)
          (update_forward_rules-Keeps env m.forwarding_rules e1))
        (in_turn-Takes m.serial _ _ (λ e'. record { serial = refl; persist = refl; latest = refl })
          (in_turn-Takes m.serial _ _ (apply_remote_peers-Keeps env cfg m)
            (last-Takes m.serial _ (finish_map-Takes r.0.0 m)))
          r.1)

  with_conn_mgr-Keeps : (f : peers.World → peers.World) → MethodKeeps env (with_conn_mgr env cfg f)
  with_conn_mgr-Keeps f e = record {
    serial = ground arith;
    persist = ground arith;
    latest = ground arith;
  }

  apply_map-Takes :
      (m : NetworkMap SshConfig PortMessage) → MethodTakes m.serial (apply_map env cfg m)
  unfolding apply_map
  apply_map-Takes m = in_turn-Takes m.serial _ _ (with_conn_mgr-Keeps _) (
      in_turn-Takes m.serial _ _ (λ e. update_firewall-Keeps env cfg m e)
        (in_turn-Takes m.serial _ _ (update_dns-Keeps env cfg m)
          (last-Takes m.serial _ (apply_changes-Takes m))))

  -- The serial after a network map that is handled without error.
  abbrev pub later_serial : ℕ → ℕ → ℕ
  later_serial old new = if ltb new old then old else new

  -- A run that keeps the stored response, takes a serial that is not smaller, and, where it ends
  -- without error, the later of the two.
  pub record Advances (n : ℕ) (e : Engine env) (r : Result) : Type 0 where
    pub persist : r.1.persist_sync_response ≡ e.persist_sync_response
    pub latest : r.1.latest_sync_response ≡ e.latest_sync_response
    pub grows : e.network_serial ≤ r.1.network_serial
    pub serial : r.0 ≡ ok tt → r.1.network_serial ≡ later_serial e.network_serial n

  pub config_of_map-Keeps :
      (m : NetworkMap SshConfig PortMessage) → MethodKeeps env (config_of_map env cfg m)
  config_of_map-Keeps m e = kept m.peer_config
    where
      kept :
          (o : Option (PeerConfigMessage SshConfig))
          → Keeps env e
              (let r : Result = elim o [ none ↦ (ok tt, e) | some c ↦ update_config env cfg c e ] in
                r).1
      kept none = record { serial = refl; persist = refl; latest = refl }
      kept (some c) = update_config-Keeps env cfg c e

  Takes-Advances :
      (n : ℕ) (e : Engine env) (r : Result) → e.network_serial ≤ n → Takes n e r → Advances n e r
  Takes-Advances n e r h t = elim t.serial [
    | inl u ↦ record {
      persist = t.persist;
      latest = t.latest;
      grows = ground arith;
      serial = λ o. ground arith;
    }
    | inr (u, v) ↦ record {
      persist = t.persist;
      latest = t.latest;
      grows = ground arith;
      serial = λ o. absurd (v o);
    }
  ]

  pub update_network_map-Advances :
      (m : NetworkMap SshConfig PortMessage) (e : Engine env)
      → Advances m.serial e (update_network_map env cfg m e)
  unfolding update_network_map
  update_network_map-Advances m e = behind (config_of_map env cfg m e) (config_of_map-Keeps m e)
    where
      split :
          (e' : Engine env)
          → Keeps env e e'
          → (b : Bool) → ltb m.serial e'.network_serial ≡ b
          → Advances m.serial e (if b then (ok tt, e') else apply_map env cfg m e')
      split e' k true h = record {
        persist = k.persist;
        latest = k.latest;
        grows = ground (arith, k.serial);
        serial = λ o. ground (arith, k.serial);
      }
      split e' k false h =
          let t =
            Takes-Advances m.serial e' (apply_map env cfg m e') (ground arith)
              (apply_map-Takes m e') in
          record {
            persist = t.persist ∙ k.persist;
            latest = t.latest ∙ k.latest;
            grows = ground (arith, k.serial, t.grows);
            serial = λ o. t.serial o ∙ ap (λ n. later_serial n m.serial) k.serial;
          }

      behind :
          (r : Result)
          → Keeps env e r.1
          → Advances m.serial e (
              and_then r (λ _ e'.
                if ltb m.serial e'.network_serial then (ok tt, e') else apply_map env cfg m e'))
      behind (ok u, e') k = split e' k (ltb m.serial e'.network_serial) refl
      behind (err x, e') k = record {
        persist = k.persist;
        latest = k.latest;
        grows = ground (arith, k.serial);
        serial = λ o. absurd (ground arith);
      }
      behind (panic, e') k = record {
        persist = k.persist;
        latest = k.latest;
        grows = ground (arith, k.serial);
        serial = λ o. absurd (ground arith);
      }

-- ===== src/Engine/NetworkMaps/History.antt =====
-- Whole runs of the engine of go/internal/engine.go: sync responses one after another, between them
-- calls that turn the persistence of responses on or off.
use mathlib.Core.Path.{subst}
use netbird_minimal.Common.{
  ℕ, ◌≤◌, ◌≡◌, refl, sym, ap, ◌∙◌, Bool, false, ◌&&◌, ◌⊎◌, Option, none, some, List, [], ◌∷◌, arith,
  if◌then◌else◌, Option-cases, inl, inr, is_some,
}
use netbird_minimal.Common.Outcome.{ok, err, panic, and_then, in_turn}
use netbird_minimal.Engine.Netip.{Netip}
use netbird_minimal.Engine.PeerEnv.{PeerEnv}
use netbird_minimal.Engine.Peers.{PeerConfig}
use netbird_minimal.Engine.Messages.{NetbirdConfig, NetworkMap, SyncResponse}
use netbird_minimal.Engine.SyncEnv.{SyncEnv}
use netbird_minimal.Engine.SyncState.{Engine, Method}
use netbird_minimal.Engine.Checks.{update_checks_if_new}
use netbird_minimal.Engine.Persistence.{same, set_sync_response_persistence}
use netbird_minimal.Engine.NetworkMaps.{
  told, update_network_map, handle_config, config_of_sync, keep_response, map_of_sync, handle_sync,
}
use netbird_minimal.Engine.NetworkMaps.Stages.{
  Keeps, MethodKeeps, update_checks-Keeps, handle_config-Keeps,
}
use netbird_minimal.Engine.NetworkMaps.Serial.{
  Result, later_serial, Advances, update_network_map-Advances,
}

module _ {net : Netip} {peers : PeerEnv net} (env : SyncEnv peers) (cfg : PeerConfig) where
  open env use {SshConfig, PortMessage}

  -- The serial after a response that is handled without error.
  abbrev pub serial_after : SyncResponse SshConfig PortMessage → ℕ → ℕ
  serial_after u old = elim u.network_map [
    | none ↦ old
    | some m ↦ later_serial env cfg old m.serial
  ]

  -- The response that is stored afterwards.
  abbrev pub stored_after :
      SyncResponse SshConfig PortMessage → Engine env → Option (SyncResponse SshConfig PortMessage)
  stored_after u e =
      if is_some u.network_map && e.persist_sync_response then some u else e.latest_sync_response

  -- What a run of handleSync does to the serial and to the stored response.
  pub record Handles (u : SyncResponse SshConfig PortMessage) (e : Engine env) (r : Result env cfg)
      : Type 0 where
    pub persist : r.1.persist_sync_response ≡ e.persist_sync_response
    pub grows : e.network_serial ≤ r.1.network_serial
    pub serial : r.0 ≡ ok tt → r.1.network_serial ≡ serial_after u e.network_serial
    pub stored : r.0 ≡ ok tt → r.1.latest_sync_response ≡ stored_after u e
    pub either :
        (r.1.latest_sync_response ≡ e.latest_sync_response)
        ⊎ (r.1.latest_sync_response ≡ stored_after u e)

  Handles-none :
      (u : SyncResponse SshConfig PortMessage) (e : Engine env) (r : Result env cfg)
      → Keeps env e r.1
      → (r.0 ≡ ok tt → u.network_map ≡ none)
      → Handles u e r
  Handles-none u e r k n = record {
    persist = k.persist;
    grows = ground (arith, k.serial);
    serial = λ o. ground (arith, k.serial, n o);
    stored = λ o. ground (arith, k.latest, n o);
    either = inl k.latest;
  }

  -- What keeping the response changes.
  keep_response-stored :
      (u : SyncResponse SshConfig PortMessage) (e : Engine env)
      {m : NetworkMap SshConfig PortMessage}
      → u.network_map ≡ some m
      → ((keep_response env cfg u e).network_serial ≡ e.network_serial)
        × ((keep_response env cfg u e).persist_sync_response ≡ e.persist_sync_response)
        × ((keep_response env cfg u e).latest_sync_response ≡ stored_after u e)
  keep_response-stored u e h = (ground arith, ground arith, ground arith)

  -- The event that is published changes neither.
  published :
      (n : ℕ) (e : Engine env) (r : Result env cfg)
      → Advances env cfg n e r
      → Advances env cfg n e (and_then r (λ _. told env cfg env.publish_event))
  published n e (ok u, e') a = record {
    persist = a.persist;
    latest = a.latest;
    grows = a.grows;
    serial = λ o. a.serial refl;
  }
  published n e (err x, e') a = record {
    persist = a.persist;
    latest = a.latest;
    grows = a.grows;
    serial = λ o. absurd (ground arith);
  }
  published n e (panic, e') a = record {
    persist = a.persist;
    latest = a.latest;
    grows = a.grows;
    serial = λ o. absurd (ground arith);
  }

  map_of_sync-Handles :
      (u : SyncResponse SshConfig PortMessage) (e : Engine env)
      → Handles u e (map_of_sync env cfg u e)
  map_of_sync-Handles u e = elim (Option-cases u.network_map) [
    | inl n ↦ subst (Handles u e) (sym (skipped n)) (
        Handles-none u e (ok tt, e) (record { serial = refl; persist = refl; latest = refl })
          (λ o. n))
    | inr (m, h) ↦
        let e' = keep_response env cfg u e in
        let (s, p, l) = keep_response-stored u e h in
        let a =
          published m.serial e' (update_network_map env cfg m e')
            (update_network_map-Advances env cfg m e') in
        subst (Handles u e) (sym (applied m h)) (record {
          persist = a.persist ∙ p;
          grows = ground (arith, s, a.grows);
          serial = λ o. a.serial o ∙ ground (arith, s, h);
          stored = λ o. a.latest ∙ l;
          either = inr (a.latest ∙ l);
        })
  ]
    where
      skipped : u.network_map ≡ none → map_of_sync env cfg u e ≡ (ok tt, e)
      skipped n = unfold map_of_sync in ground arith

      applied :
          (m : NetworkMap SshConfig PortMessage)
          → u.network_map ≡ some m
          → map_of_sync env cfg u e
            ≡ and_then
                (update_network_map env cfg m (keep_response env cfg u e))
                (λ _. told env cfg env.publish_event)
      applied m h = unfold map_of_sync in ground arith

  -- Statements in front that keep serial and response.
  Handles-after :
      (u : SyncResponse SshConfig PortMessage) (e e' : Engine env) (r : Result env cfg)
      → Keeps env e e'
      → Handles u e' r
      → Handles u e r
  Handles-after u e e' r k h = record {
    persist = h.persist ∙ k.persist;
    grows = ground (arith, k.serial, h.grows);
    serial = λ o. h.serial o ∙ ap (serial_after u) k.serial;
    stored = λ o. h.stored o ∙ ground (arith, k.persist, k.latest);
    either = elim h.either [
      | inl s ↦ inl (s ∙ k.latest)
      | inr s ↦ inr (s ∙ ground (arith, k.persist, k.latest))
    ];
  }

  in_turn-Handles :
      (u : SyncResponse SshConfig PortMessage) (f : Method env) (fs : List (Method env))
      → MethodKeeps env f
      → ((e : Engine env) → Handles u e (in_turn fs e))
      → (e : Engine env) → Handles u e (in_turn (f ∷ fs) e)
  unfolding in_turn
  in_turn-Handles u f fs k h e = behind (f e) (k e)
    where
      behind : (r : Result env cfg) → Keeps env e r.1 → Handles u e (and_then r (λ _. in_turn fs))
      behind (ok v, e') c = Handles-after u e e' (in_turn fs e') c (h e')
      behind (err x, e') c = Handles-none u e (err x, e') c (λ o. absurd (ground arith))
      behind (panic, e') c = Handles-none u e (panic, e') c (λ o. absurd (ground arith))

  last-Handles :
      (u : SyncResponse SshConfig PortMessage) (f : Method env) (e : Engine env)
      → Handles u e (f e)
      → Handles u e (in_turn (f ∷ []) e)
  unfolding in_turn
  last-Handles u f e h = behind (f e) h
    where
      behind : (r : Result env cfg) → Handles u e r → Handles u e (and_then r (λ _. in_turn []))
      behind (ok v, e') c = c
      behind (err x, e') c = c
      behind (panic, e') c = c

  config_of_sync-Keeps :
      (u : SyncResponse SshConfig PortMessage) → MethodKeeps env (config_of_sync env cfg u)
  config_of_sync-Keeps u e = kept u.netbird_config
    where
      kept :
          (o : Option NetbirdConfig)
          → Keeps env e
              (let r : Result env cfg = elim o [
                | none ↦ (ok tt, e)
                | some c ↦ handle_config env cfg c e
              ] in
                r).1
      kept none = record { serial = refl; persist = refl; latest = refl }
      kept (some c) = handle_config-Keeps env cfg c e

  -- handleSync never turns the serial of the network map back, and keeps the persistence flag; it
  -- leaves the stored response or stores this one, where persistence is on and it has a network
  -- map. Where it returns no error, the serial is the later of the two and the response is stored.
  pub handle_sync-Handles :
      (u : SyncResponse SshConfig PortMessage) (e : Engine env)
      → Handles u e (handle_sync env cfg u e)
  unfolding handle_sync
  handle_sync-Handles u e =
      in_turn-Handles u (config_of_sync env cfg u)
        (update_checks_if_new env u.checks ∷ map_of_sync env cfg u ∷ []) (config_of_sync-Keeps u)
        (in_turn-Handles u (update_checks_if_new env u.checks) (map_of_sync env cfg u ∷ [])
          (update_checks-Keeps env u.checks)
          (λ e'. last-Handles u (map_of_sync env cfg u) e' (map_of_sync-Handles u e')))
        e

  -- A step of a run: a response is handled, whatever it returns, or persistence is set.
  pub data Step : Engine env → Engine env → Type 0 where
    sync :
        (u : SyncResponse SshConfig PortMessage) (e e' : Engine env)
        → e' ≡ (handle_sync env cfg u e).1
        → Step e e'
    persist :
        (b : Bool) (e e' : Engine env) → e' ≡ set_sync_response_persistence env b e → Step e e'

  pub data Reach (s : Engine env) : Engine env → Type 0 where
    here : Reach s s
    next : {t u : Engine env} → Reach s t → Step t u → Reach s u

  -- A response is stored only while persistence is on.
  abbrev pub IsPrivate : Engine env → Type 0
  IsPrivate e = e.persist_sync_response ≡ false → e.latest_sync_response ≡ none

  Step-IsPrivate :
      {e e' : Engine env}
      → Step e e'
      → IsPrivate e
      → IsPrivate e' × (e.network_serial ≤ e'.network_serial)
  unfolding set_sync_response_persistence
  Step-IsPrivate (sync u e e' q) i =
      let h = handle_sync-Handles u e in
      subst (λ x. IsPrivate x × (e.network_serial ≤ x.network_serial)) (sym q) (silent h, h.grows)
    where
      silent : Handles u e (handle_sync env cfg u e) → IsPrivate (handle_sync env cfg u e).1
      silent h off =
          let was = i (sym h.persist ∙ off) in
          let gone : e.persist_sync_response ≡ false = sym h.persist ∙ off in
          elim h.either [ inl s ↦ s ∙ was | inr s ↦ s ∙ ground (arith, was, gone) ]
  Step-IsPrivate (persist b e e' q) i =
      subst (λ x. IsPrivate x × (e.network_serial ≤ x.network_serial)) (sym q)
        ((λ off. unfold same in ground (arith, i)), unfold same in ground arith)

  -- In every run the serial never decreases, and no response is stored while persistence is off.
  pub Reach-IsPrivate :
      {s e : Engine env}
      → IsPrivate s
      → Reach s e
      → IsPrivate e × (s.network_serial ≤ e.network_serial)
  Reach-IsPrivate i here = (i, omega arith)
  Reach-IsPrivate i (next r st) =
      let (j, a) = Reach-IsPrivate i r in let (k, b) = Step-IsPrivate st j in (k, omega arith)

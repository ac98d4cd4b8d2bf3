-- ===== src/Engine/Convert/Dns.antt =====
-- The DNS configuration that toDNSConfig of go/internal/engine.go makes.
use netbird_minimal.Common.{ℕ, ◌<◌, ◌^◌, ◌≡◌, ◌↔◌, refl, true, List, [], ◌∷◌, arith, is_some, All}
use netbird_minimal.Engine.Netip.{Netip}
use netbird_minimal.Engine.PeerEnv.{PeerEnv}
use netbird_minimal.Engine.Messages.{NameServerMessage, NameServerGroupMessage, DnsConfigMessage}
use netbird_minimal.Engine.SyncEnv.{SyncEnv}
use netbird_minimal.Engine.Convert.{to_name_servers, to_groups, to_forwarder_port, to_dns_config}

module _ {net : Netip} {peers : PeerEnv net} (env : SyncEnv peers) where
  -- The address of a name server parses.
  abbrev pub HasAddr : NameServerMessage → Type 0
  HasAddr s = is_some (env.parse_addr s.ip) ≡ true

  servers-HasAddr :
      (ss : List NameServerMessage) → (is_some (to_name_servers env ss) ≡ true) ↔ All HasAddr ss
  unfolding to_name_servers
  servers-HasAddr [] = (λ h. tt, λ h. refl)
  servers-HasAddr (s ∷ ss) =
      let ih = servers-HasAddr ss in
      (λ h. (ground arith, ih.0 (ground arith)), λ h. ground (arith, h.0, ih.1 h.1))

  groups-HasAddr :
      (gs : List NameServerGroupMessage)
      → (is_some (to_groups env gs) ≡ true) ↔ All (λ g. All HasAddr g.name_servers) gs
  unfolding to_groups
  groups-HasAddr [] = (λ h. tt, λ h. refl)
  groups-HasAddr (g ∷ gs) =
      let ih = groups-HasAddr gs in
      let one = servers-HasAddr g.name_servers in
      (λ h. (one.0 (ground arith), ih.0 (ground arith)), λ h. ground (arith, one.1 h.0, ih.1 h.1))

  -- toDNSConfig panics exactly where a name server of some group has an address that does not
  -- parse.
  pub to_dns_config-HasAddr :
      (m : DnsConfigMessage) (network : net.Prefix)
      → (is_some (to_dns_config env m network) ≡ true)
        ↔ All (λ g. All HasAddr g.name_servers) m.name_server_groups
  unfolding to_dns_config
  to_dns_config-HasAddr m network =
      let all = groups-HasAddr m.name_server_groups in
      (λ h. all.0 (ground arith), λ h. ground (arith, all.1 h))

  -- Where the default port is a port, so is the forwarder port of every message, and a port that a
  -- message names is kept.
  pub to_forwarder_port_bounds :
      (p : ℕ)
      → 0 < env.forwarder_client_port
      → env.forwarder_client_port < 2 ^ 16
      → (0 < to_forwarder_port env p)
        × (to_forwarder_port env p < 2 ^ 16)
        × (0 < p → p < 2 ^ 16 → to_forwarder_port env p ≡ p)
  unfolding to_forwarder_port
  to_forwarder_port_bounds p h k = (ground arith, ground arith, λ a b. ground arith)

-- ===== src/Configurer/Status/BadKey.antt =====
-- A public key that parseStatus of go/iface/configurer/usp.go cannot read.
use mathlib.Core.List.{append_assoc}
use netbird_minimal.Common.{String, ◌≡◌, ◌∙◌, none, some, [], ◌∷◌, ◌++◌, arith}
use netbird_minimal.Configurer.WgEnv.{WgEnv}
use netbird_minimal.Configurer.Status.{Peer, Status, save_peer, hex_to_wireguard_key, status_entry}

module _ (env : WgEnv) where
  open env use {IpNet, Ip}

  -- A public key that cannot be read, behind the lines of a peer, puts that peer twice into what
  -- parseStatus returns at the end of the text.
  pub status_entry-twice :
      (val : String) (s : Status env) {p : Peer IpNet Ip}
      → s.current_peer ≡ some p
      → hex_to_wireguard_key env val ≡ none
      → (save_peer env (status_entry env "public_key" val s)).peers ≡ s.stats.peers ++ (p ∷ p ∷ [])
  unfolding status_entry
  status_entry-twice val s {p} h k =
      ground (arith, h, k) ∙ append_assoc s.stats.peers (p ∷ []) (p ∷ [])

-- ===== src/Configurer/Device/Restores.antt =====
-- RemoveEndpointAddress of go/iface/configurer/usp.go, on a device that reports its peers.
use netbird_minimal.Common.{
  String, ◌≡◌, refl, ap, ◌∙◌, true, Option, none, some, List, [], ◌∷◌, map, arith, if◌then◌else◌,
  All, str_eq,
}
use netbird_minimal.Common.Outcome.{err, Act, and_then}
use netbird_minimal.Configurer.WgEnv.{Key, WgEnv, WgLaws}
use netbird_minimal.Configurer.Config.Printed.{Entry}
use netbird_minimal.Configurer.Status.{Peer, parse_status}
use netbird_minimal.Configurer.Device.{
  WgError, peer_not_found, peer_config, peers_config, set_config, find_peer,
  remove_endpoint_address,
}
use netbird_minimal.Configurer.Device.Report.{
  Reported, allowed_of, IsAnother, IsReported, report, View, view, reported, report-read,
}

module _ (env : WgEnv) (laws : WgLaws env) where
  open env use {IpNet, Ip, World}

  -- The allowed IPs of the first reported peer with this key.
  unfoldable pub find_allowed : String → List (Reported IpNet) → Option (List IpNet)
  find_allowed k [] = none
  find_allowed k (p ∷ ps) =
      if str_eq (env.base64 p.key) k then some (allowed_of p.lines) else find_allowed k ps

  find_view : String → List (View env laws) → Option (List IpNet)
  find_view k [] = none
  find_view k (v ∷ vs) = if str_eq v.0 k then some v.1 else find_view k vs

  abbrev ips_of : Option (Peer IpNet Ip) → Option (List IpNet)
  ips_of none = none
  ips_of (some p) = some p.allowed_ips

  find_peer-view :
      (k : String) (xs : List (Peer IpNet Ip))
      → ips_of (find_peer env k xs) ≡ find_view k (map (view env laws) xs)
  unfolding find_peer find_view
  find_peer-view k [] = refl
  find_peer-view k (p ∷ ps) = ground (arith, find_peer-view k ps)

  find_allowed-view :
      (k : String) (ps : List (Reported IpNet))
      → find_view k (map (reported env laws) ps) ≡ find_allowed k ps
  unfolding find_allowed find_view
  find_allowed-view k [] = refl
  find_allowed-view k (p ∷ ps) = ground (arith, find_allowed-view k ps)

  -- What RemoveEndpointAddress does with a peer that it finds: it removes the peer, and where the
  -- device takes that it adds it again with these allowed IPs.
  abbrev pub replaced : Key → List IpNet → Act World WgError (Unit {0})
  replaced key ns w =
      and_then
        (set_config env (peers_config env (record (peer_config env key) { remove = true } ∷ [])) w)
        (λ _. set_config env (
          peers_config env
            (record (peer_config env key) { replace_allowed_ips = true; allowed_ips = ns } ∷ [])))

  found-replaced :
      (d k text : String) (key : Key) (w : World) (o : Option (Peer IpNet Ip))
      → env.parse_key k ≡ some key
      → env.ipc_get w ≡ some text
      → find_peer env k (parse_status env d text).peers ≡ o
      → remove_endpoint_address env d k w
        ≡ (elim (ips_of o) [ none ↦ (err peer_not_found, w) | some ns ↦ replaced key ns w ])
  unfolding remove_endpoint_address
  found-replaced d k text key w none q r f = ground (arith, q, r, f)
  found-replaced d k text key w (some p) q r f = ground (arith, q, r, f)

  -- On a device that reports its peers, each with its key, its allowed IPs and any other lines,
  -- RemoveEndpointAddress of a key that parses removes the peer with that key and, where the device
  -- takes that, adds it again with the allowed IPs that the first such peer has in the report and no
  -- endpoint; where there is no such peer it returns an error and leaves the device alone.
  pub remove_endpoint_address-restores :
      (d k : String) (key : Key) (head : List Entry) (ps : List (Reported IpNet)) (w : World)
      → env.parse_key k ≡ some key
      → env.ipc_get w ≡ some (report env laws head ps)
      → All IsAnother head
      → All (IsReported env laws) ps
      → remove_endpoint_address env d k w ≡ (elim (find_allowed k ps) [
        | none ↦ (err peer_not_found, w)
        | some ns ↦ replaced key ns w
      ])
  remove_endpoint_address-restores d k key head ps w q r a b =
      let peers = (parse_status env d (report env laws head ps)).peers in
      let same =
        find_peer-view k peers
        ∙ ap (find_view k) (report-read env laws d head ps a b)
        ∙ find_allowed-view k ps in
      found-replaced d k (report env laws head ps) key w (find_peer env k peers) q r refl
      ∙ ap (λ o. elim o [ none ↦ (err peer_not_found, w) | some ns ↦ replaced key ns w ]) same

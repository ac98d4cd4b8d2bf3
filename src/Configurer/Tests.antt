-- ===== src/Configurer/Tests.antt =====
-- Runs of the configurer on a small device, and the theorems there.
use netbird_minimal.Common.{
  ℕ, ◌<◌, ltb, Bool, ◌&&◌, arith, String, ◌≡◌, refl, true, false, none, some, List, [], ◌∷◌, All,
}
use netbird_minimal.Common.Split.{split_on, trim_left, trim_right}
use netbird_minimal.Common.Outcome.{err}
use netbird_minimal.Common.Split.{lacks}
use netbird_minimal.Configurer.Config.Printed.{Entry}
use netbird_minimal.Configurer.Device.{peer_not_found, remove_endpoint_address}
use netbird_minimal.Configurer.Device.Report.{
  Reported, allowed, another, IsAnother, IsReported, report,
}
use netbird_minimal.Configurer.Device.Restores.{
  find_allowed, replaced, remove_endpoint_address-restores,
}
use netbird_minimal.Configurer.Device.Unknown.{IsOther}
use netbird_minimal.Configurer.WgEnv.{pos, Key, IsKey32}
use netbird_minimal.Configurer.Sample.{ones, sample_wg, sample_wg_laws, decode, encode}
use netbird_minimal.Configurer.Config.{WgPeerConfig, WgConfig, to_wg_userspace_string}
use netbird_minimal.Configurer.Status.{parse_status, hex_to_wireguard_key}
use netbird_minimal.Configurer.Status.RoundTrip.{stats_of, parse_status_roundtrip}

abbrev key_a : Key
key_a =
    1 ∷ 0 ∷ 0 ∷ 0 ∷ 0 ∷ 0 ∷ 0 ∷ 0 ∷ 0 ∷ 0 ∷ 0 ∷ 0 ∷ 0 ∷ 0 ∷ 0 ∷ 0 ∷ 0 ∷ 0 ∷ 0 ∷ 0 ∷ 0 ∷ 0 ∷ 0 ∷ 0
    ∷ 0 ∷ 0 ∷ 0 ∷ 0 ∷ 0 ∷ 0 ∷ 0 ∷ 2 ∷ []

key_a-IsKey32 : IsKey32 key_a
key_a-IsKey32 = (refl, bytes key_a refl)
  where
    are_bytes : List ℕ → Bool
    are_bytes [] = true
    are_bytes (b ∷ bs) = ltb b 256 && are_bytes bs

    bytes : (k : List ℕ) → are_bytes k ≡ true → All (λ b. b < 256) k
    bytes [] h = tt
    bytes (b ∷ bs) h = (ground arith, bytes bs (ground arith))

abbrev config_a : WgPeerConfig (List ℕ) ℕ
config_a = record {
  public_key = key_a;
  remove = false;
  update_only = true;
  preshared_key = some key_a;
  endpoint = some (record { ip = 7; port = pos 51820 });
  persistent_keepalive_interval = some (pos 25000000000);
  replace_allowed_ips = true;
  allowed_ips = (10 ∷ 1 ∷ []) ∷ (10 ∷ 2 ∷ []) ∷ [];
}

abbrev config : WgConfig (List ℕ) ℕ
config = record {
  private_key = some key_a;
  listen_port = some (pos 5);
  replace_peers = true;
  firewall_mark = none;
  peers = config_a ∷ [];
}

config_networks : All (λ n. decode (encode n) ≡ some n) config_a.allowed_ips
unfolding decode encode
config_networks = (refl, (refl, tt))

parse_status_roundtrip_example :
    parse_status sample_wg "wt0" (to_wg_userspace_string sample_wg config)
    ≡ stats_of sample_wg sample_wg_laws "wt0" config
parse_status_roundtrip_example =
    parse_status_roundtrip sample_wg sample_wg_laws "wt0" config (refl, tt)
      ((key_a-IsKey32, config_networks, (refl, omega arith)), tt) key_a-IsKey32 (omega arith) tt

-- A key that is too short.
bad_key_run : hex_to_wireguard_key sample_wg "ab" ≡ none
unfolding hex_to_wireguard_key decode
bad_key_run = refl

-- A device that reports a peer as wireguard-go does.
abbrev device_lines : List Entry
device_lines = ("private_key", encode key_a) ∷ ("listen_port", encode (0 ∷ 5 ∷ [])) ∷ []

abbrev reported_a : Reported (List ℕ)
reported_a = record {
  key = key_a;
  lines =
      another ("protocol_version", "1")
      ∷ another ("tx_bytes", encode (0 ∷ 3 ∷ []))
      ∷ allowed (10 ∷ 1 ∷ [])
      ∷ allowed (10 ∷ 2 ∷ [])
      ∷ [];
}

abbrev device : List String
device = report sample_wg sample_wg_laws device_lines (reported_a ∷ []) ∷ []

device_lines-IsAnother : All IsAnother device_lines
unfolding lacks encode ones
device_lines-IsAnother =
    ((((refl, refl), refl), refl, refl), ((((refl, refl), refl), refl, refl), tt))

reported_a-IsReported : IsReported sample_wg sample_wg_laws reported_a
unfolding lacks decode encode ones
reported_a-IsReported = (
  key_a-IsKey32,
  ((((refl, refl), refl), refl, refl), ((((refl, refl), refl), refl, refl), (refl, (refl, tt)))),
)

remove_endpoint_address-restores_example :
    remove_endpoint_address sample_wg "wt0" (encode key_a) device
    ≡ (elim (find_allowed sample_wg sample_wg_laws (encode key_a) (reported_a ∷ [])) [
      | none ↦ (err peer_not_found, device)
      | some ns ↦ replaced sample_wg sample_wg_laws key_a ns device
    ])
remove_endpoint_address-restores_example =
    remove_endpoint_address-restores sample_wg sample_wg_laws "wt0" (encode key_a) key_a
      device_lines (reported_a ∷ []) device (unfold decode in unfold encode in refl) refl
      device_lines-IsAnother (reported_a-IsReported, tt)

lines-IsOther :
    All (IsOther sample_wg (encode (3 ∷ []))) (split_on b'\n' "public_key=b\nallowed_ip=aab")
unfolding split_on encode trim_right trim_left
lines-IsOther = (refl, (refl, tt))

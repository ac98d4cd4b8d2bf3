-- ===== src/Configurer/Status.antt =====
-- What the device reports: parseStatus, parseTransfers and what they call, of
-- go/iface/configurer/usp.go, and the types of wgshow.go beside it.
pub mod Endpoint
pub mod Reading
pub mod RoundTrip
pub mod BadKey
use netbird_minimal.Common.{
  ℕ, String, Bool, true, false, not, ◌&&◌, ◌||◌, Option, none, some, List, [], ◌∷◌, ◌++◌,
  if◌then◌else◌, str_eq, ◌==◌, is_some, length,
}
use netbird_minimal.Common.Dict.{Dict, insert}
use netbird_minimal.Common.Split.{is_blank, split_once, split_on, trim_space, trim, behind_prefix}
use netbird_minimal.Configurer.WgEnv.{ℤ, pos, Key, UdpAddr, WgEnv}

-- time.Time: `none` is the zero time, and a time is its seconds
abbrev pub Time : Type 0
Time = Option ℤ

-- Peer
pub record Peer (IpNet Ip : Type 0) : Type 0 where
  pub public_key : String
  pub endpoint : UdpAddr Ip
  pub allowed_ips : List IpNet
  pub tx_bytes : ℤ
  pub rx_bytes : ℤ
  pub last_handshake : Time
  pub preshared_key : Bool

-- Stats
pub record Stats (IpNet Ip : Type 0) : Type 0 where
  pub device_name : String
  pub public_key : String
  pub listen_port : ℤ
  pub fw_mark : ℤ
  pub peers : List (Peer IpNet Ip)

-- WGStats
pub record WgStats : Type 0 where
  pub last_handshake : Time
  pub tx_bytes : ℤ
  pub rx_bytes : ℤ

abbrev pub zero_key : String
zero_key = "0000000000000000000000000000000000000000000000000000000000000000"

module _ (env : WgEnv) where
  open env use {IpNet, Ip, parse_int, hex_decode, base64, parse_cidr}

  abbrev pub is_zero : ℤ → Bool
  is_zero (pos n) = n == 0
  is_zero _ = false

  -- toLastHandshake
  unfoldable pub to_last_handshake : String → Option Time
  to_last_handshake s = elim (parse_int s) [
    | none ↦ none
    | some sec ↦ some (if is_zero sec then none else some sec)
  ]

  -- hexToWireguardKey
  unfoldable pub hex_to_wireguard_key : String → Option Key
  hex_to_wireguard_key s = elim (hex_decode s) [
    | none ↦ none
    | some bytes ↦ if not (length bytes == 32) then none else some bytes
  ]

  -- the state of the loop of parseStatus
  pub record Status : Type 0 where
    pub stats : Stats IpNet Ip
    pub current_peer : Option (Peer IpNet Ip)

  abbrev pub new_peer : Key → Peer IpNet Ip
  new_peer key = record {
    public_key = base64 key;
    endpoint = record { ip = env.no_ip; port = pos 0 };
    allowed_ips = [];
    tx_bytes = pos 0;
    rx_bytes = pos 0;
    last_handshake = none;
    preshared_key = false;
  }

  -- a change of the current peer, where there is one
  abbrev pub on_peer : (Peer IpNet Ip → Peer IpNet Ip) → Status → Status
  on_peer f s = elim s.current_peer [ none ↦ s | some p ↦ record s { current_peer = some (f p) } ]

  -- the peer is appended, where there is one
  abbrev pub save_peer : Status → Stats IpNet Ip
  save_peer s = elim s.current_peer [
    | none ↦ s.stats
    | some p ↦ record s.stats { peers = s.stats.peers ++ (p ∷ []) }
  ]

  -- the endpoint of a line, `none` where an error is logged
  unfoldable pub read_endpoint : String → Option (UdpAddr Ip)
  read_endpoint val = elim (env.split_host_port (trim (λ c. c == b'[' || c == b']') val)) [
    | none ↦ none
    | some (host, port_str) ↦ elim (parse_int port_str) [
      | none ↦ none
      | some port ↦ some (record { ip = env.parse_ip host; port = port })
    ]
  ]

  -- the change of a peer by a line: `none` for a key that is not one of a peer
  unfoldable pub peer_line : String → String → Option (Peer IpNet Ip → Peer IpNet Ip)
  unfolding read_endpoint to_last_handshake
  peer_line key val =
      if str_eq key "endpoint"
      then some (λ p. elim (read_endpoint val) [ none ↦ p | some e ↦ record p { endpoint = e } ])
      else (if str_eq key "allowed_ip"
          then some (λ p. elim (parse_cidr val) [
            | none ↦ p
            | some n ↦ record p { allowed_ips = p.allowed_ips ++ (n ∷ []) }
          ])
          else (if str_eq key "tx_bytes"
              then some
                  (λ p. elim (parse_int val) [ none ↦ p | some n ↦ record p { tx_bytes = n } ])
              else (if str_eq key "rx_bytes"
                  then some
                      (λ p. elim (parse_int val) [ none ↦ p | some n ↦ record p { rx_bytes = n } ])
                  else (if str_eq key "last_handshake_time_sec"
                      then some (λ p. elim (to_last_handshake val) [
                        | none ↦ p
                        | some t ↦ record p { last_handshake = t }
                      ])
                      else (if str_eq key "preshared_key"
                          then some (λ p.
                            if not (is_blank val) && not (str_eq val zero_key)
                            then record p { preshared_key = true }
                            else p)
                          else none)))))

  -- the switch of parseStatus
  unfoldable pub status_entry : String → String → Status → Status
  unfolding hex_to_wireguard_key peer_line
  status_entry key val s =
      if str_eq key "private_key"
      then (elim (hex_to_wireguard_key val) [
        | none ↦ s
        | some k ↦ record s { stats = record s.stats { public_key = base64 (env.public_of k) } }
      ])
      else (if str_eq key "public_key"
          then (let saved = save_peer s in
              elim (hex_to_wireguard_key val) [
                | none ↦ record s { stats = saved }
                | some k ↦ record { stats = saved; current_peer = some (new_peer k) }
              ])
          else (if str_eq key "listen_port"
              then (elim (parse_int val) [
                | none ↦ s
                | some n ↦ record s { stats = record s.stats { listen_port = n } }
              ])
              else (if str_eq key "fwmark"
                  then (elim (parse_int val) [
                    | none ↦ s
                    | some n ↦ record s { stats = record s.stats { fw_mark = n } }
                  ])
                  else (elim (peer_line key val) [ none ↦ s | some f ↦ on_peer f s ]))))

  -- the body of the loop; a line without "=" is left out, as an empty one is
  unfoldable pub status_line : String → Status → Status
  unfolding status_entry
  status_line line s = elim (split_once b'=' line) [
    | none ↦ s
    | some (key, val) ↦ status_entry key val s
  ]

  unfoldable pub status_lines : List String → Status → Status
  unfolding status_line
  status_lines [] s = s
  status_lines (l ∷ ls) s = status_lines ls (status_line l s)

  -- parseStatus
  unfoldable pub parse_status : String → String → Stats IpNet Ip
  unfolding status_lines
  parse_status device_name ipc_str =
      let start : Status = record {
        stats = record {
          device_name = device_name;
          public_key = "";
          listen_port = pos 0;
          fw_mark = pos 0;
          peers = [];
        };
        current_peer = none;
      } in
      save_peer (status_lines (split_on b'\n' (trim_space ipc_str)) start)

-- ===== src/Configurer/Status/RoundTrip.antt =====
-- parseStatus of go/iface/configurer/usp.go reads what toWgUserspaceString writes.
use netbird_minimal.Common.{
  String, ◌≡◌, refl, ap, ◌∙◌, Option, none, some, List, [], map, arith, All,
}
use netbird_minimal.Configurer.WgEnv.{ℤ, pos, IsInt64, Key, IsKey32, WgEnv, WgLaws}
use netbird_minimal.Configurer.Config.{WgConfig, to_wg_userspace_string}
use netbird_minimal.Configurer.Config.Printed.{
  Entry, opt, flag, peers_entries, config_entries, IsKept, to_wg_userspace_string-printed,
}
use netbird_minimal.Configurer.Config.Solid.{config-IsEntry}
use netbird_minimal.Configurer.Status.{Stats, Status, save_peer, status_entry, parse_status}
use netbird_minimal.Configurer.Status.Reading.{
  status_entries, start, parse-entries, peer_of, IsReadable, key-read, replace-read, peers-read,
}

module _ (env : WgEnv) (laws : WgLaws env) where
  open env use {IpNet, Ip, format_int, hex_encode, ip_net_string, udp_string, parse_cidr, base64}

  -- the state before the first peer
  abbrev alone : Stats IpNet Ip → Status env
  alone st = record { stats = st; current_peer = none }

  abbrev pub public_of_opt : Option Key → String
  public_of_opt none = ""
  public_of_opt (some k) = base64 (env.public_of k)

  abbrev pub number_of : Option ℤ → ℤ
  number_of none = pos 0
  number_of (some n) = n

  -- A private key is one, and a number is an int.
  abbrev pub IsPrivateKey : Option Key → Type 0
  IsPrivateKey none = Unit
  IsPrivateKey (some k) = IsKey32 k

  abbrev pub IsNumber : Option ℤ → Type 0
  IsNumber none = Unit
  IsNumber (some n) = IsInt64 n

  private_key-read :
      (d : String) (o : Option Key) (es : List Entry)
      → IsPrivateKey o
      → (status_entries env laws) (opt env "private_key" hex_encode o es) ((start env laws) d)
        ≡ (status_entries env laws) es (
            alone (record {
              device_name = d;
              public_key = public_of_opt o;
              listen_port = pos 0;
              fw_mark = pos 0;
              peers = [];
            }))
  unfolding status_entries start status_entry
  private_key-read d none es h = refl
  private_key-read d (some k) es h =
      ap ((status_entries env laws) es) (ground (arith, (key-read env laws) k h))

  listen_port-read :
      (st : Stats IpNet Ip) (o : Option ℤ) (es : List Entry)
      → st.listen_port ≡ pos 0
      → IsNumber o
      → (status_entries env laws) (opt env "listen_port" format_int o es) (alone st)
        ≡ (status_entries env laws) es (alone (record st { listen_port = number_of o }))
  unfolding status_entries status_entry
  listen_port-read st none es h l =
      ap (λ n. (status_entries env laws) es (alone (record st { listen_port = n }))) h
  listen_port-read st (some n) es h l =
      ap ((status_entries env laws) es) (ground (arith, laws.int_lem n l))

  fwmark-read :
      (st : Stats IpNet Ip) (o : Option ℤ) (es : List Entry)
      → st.fw_mark ≡ pos 0
      → IsNumber o
      → (status_entries env laws) (opt env "fwmark" format_int o es) (alone st)
        ≡ (status_entries env laws) es (alone (record st { fw_mark = number_of o }))
  unfolding status_entries status_entry
  fwmark-read st none es h l =
      ap (λ n. (status_entries env laws) es (alone (record st { fw_mark = n }))) h
  fwmark-read st (some n) es h l =
      ap ((status_entries env laws) es) (ground (arith, laws.int_lem n l))

  -- What the device would report of a configuration.
  abbrev pub stats_of : String → WgConfig IpNet Ip → Stats IpNet Ip
  stats_of d c = record {
    device_name = d;
    public_key = public_of_opt c.private_key;
    listen_port = number_of c.listen_port;
    fw_mark = number_of c.firewall_mark;
    peers = map (peer_of env laws) c.peers;
  }

  -- What toWgUserspaceString writes, parseStatus reads: of a configuration that removes no peer,
  -- whose keys have 32 bytes, whose allowed IPs are networks, whose endpoints are of IPv4 addresses and
  -- whose numbers are in the range of an int, it gives the public key, the port, the mark and all
  -- peers in their order, each with its key, its endpoint, its allowed IPs, and whether it has a
  -- preshared key other than zero.
  pub parse_status_roundtrip :
      (d : String) (c : WgConfig IpNet Ip)
      → All (IsKept env) c.peers
      → All (IsReadable env laws) c.peers
      → IsPrivateKey c.private_key
      → IsNumber c.listen_port
      → IsNumber c.firewall_mark
      → parse_status env d (to_wg_userspace_string env c) ≡ stats_of d c
  parse_status_roundtrip d c h k l m n =
      let es1 = peers_entries env c.peers in
      let es2 = opt env "fwmark" format_int c.firewall_mark es1 in
      let es3 = flag env "replace_peers" c.replace_peers es2 in
      let es4 = opt env "listen_port" format_int c.listen_port es3 in
      let st : Stats IpNet Ip = record {
        device_name = d;
        public_key = public_of_opt c.private_key;
        listen_port = pos 0;
        fw_mark = pos 0;
        peers = [];
      } in
      let st1 : Stats IpNet Ip = record st { listen_port = number_of c.listen_port } in
      let st2 : Stats IpNet Ip = record st1 { fw_mark = number_of c.firewall_mark } in
      ap (parse_status env d) (to_wg_userspace_string-printed env c h)
      ∙ (parse-entries env laws) d (config_entries env c) (config-IsEntry env laws c)
      ∙ ap (save_peer env) (
          private_key-read d c.private_key es4 l
          ∙ listen_port-read st c.listen_port es3 refl m
          ∙ (replace-read env laws) c.replace_peers es2 (alone st1)
          ∙ fwmark-read st1 c.firewall_mark es1 refl n)
      ∙ (peers-read env laws) c.peers (alone st2) k

-- ===== src/Configurer/Status/Reading.antt =====
-- How parseStatus of go/iface/configurer/usp.go reads the lines that toWgUserspaceString writes.
use mathlib.Core.List.{append-nil, append_assoc}
use netbird_minimal.Common.{
  String, ◌≡◌, refl, sym, ap, ◌∙◌, Bool, true, false, not, ◌&&◌, Option, none, some, List, [], ◌∷◌,
  ◌++◌, map, arith, All, str_eq,
}
use netbird_minimal.Common.Split.{
  is_blank, split_once, split_on, trim_left, trim_right, split_once-append,
}
use netbird_minimal.Common.Lines.{unlines, split_on-unlines}
use netbird_minimal.Configurer.WgEnv.{ℤ, pos, IsInt64, Key, IsKey32, UdpAddr, WgEnv, WgLaws}
use netbird_minimal.Configurer.Config.{whole_seconds, WgPeerConfig}
use netbird_minimal.Configurer.Config.Printed.{
  Entry, entry, printed, opt, allowed_entries, flag, peer_entries, peers_entries,
}
use netbird_minimal.Configurer.Config.Solid.{IsEntry, entries-IsSolid}
use netbird_minimal.Configurer.Status.Endpoint.{read_endpoint-v4}
use netbird_minimal.Configurer.Status.{
  Peer, Stats, zero_key, Status, new_peer, save_peer, hex_to_wireguard_key, peer_line, status_entry,
  status_line, status_lines, parse_status,
}

module _ (env : WgEnv) (laws : WgLaws env) where
  open env use {IpNet, Ip, format_int, hex_encode, ip_net_string, udp_string, parse_cidr, base64}

  unfoldable pub status_entries : List Entry → Status env → Status env
  status_entries [] s = s
  status_entries (e ∷ es) s = status_entries es (status_entry env e.0 e.1 s)

  lines-entries :
      (es : List Entry)
      → All IsEntry es
      → (s : Status env) → status_lines env (map entry es) s ≡ status_entries es s
  unfolding status_lines status_entries
  lines-entries [] h s = refl
  lines-entries (e ∷ es) (h, k) s =
      ap (status_lines env (map entry es)) (one (split_once-append "=" e.0 e.1 h.0.0))
      ∙ lines-entries es k (status_entry env e.0 e.1 s)
    where
      one :
          split_once b'=' (entry e) ≡ some e
          → status_line env (entry e) s ≡ status_entry env e.0 e.1 s
      one q = unfold status_line in ground (arith, q)

  unfoldable pub start : String → Status env
  start d = record {
    stats = record {
      device_name = d;
      public_key = "";
      listen_port = pos 0;
      fw_mark = pos 0;
      peers = [];
    };
    current_peer = none;
  }

  -- Entries in lines are read one after another.
  pub parse-entries :
      (d : String) (es : List Entry)
      → All IsEntry es
      → parse_status env d (printed es) ≡ save_peer env (status_entries es (start d))
  unfolding parse_status start unlines status_entries trim_right trim_left
  parse-entries d [] h =
      unfold split_on in unfold status_lines in unfold status_line in unfold split_once in refl
  parse-entries d (e ∷ es) h =
      ap (λ ls. save_peer env (status_lines env ls (start d)))
        (split_on-unlines (entry e) (map entry es) (entries-IsSolid (e ∷ es) h))
      ∙ ap (save_peer env) (lines-entries (e ∷ es) h (start d))

  -- The state behind the key of a peer.
  abbrev pub at : Stats IpNet Ip → Peer IpNet Ip → Status env
  at st p = record { stats = st; current_peer = some p }

  abbrev pub with_peers : List (Peer IpNet Ip) → Stats IpNet Ip → Stats IpNet Ip
  with_peers ps st = record st { peers = st.peers ++ ps }

  -- The endpoint that is read, and what is read of a preshared key.
  abbrev pub endpoint_of : Option (UdpAddr Ip) → UdpAddr Ip
  endpoint_of none = record { ip = env.no_ip; port = pos 0 }
  endpoint_of (some e) = e

  abbrev pub preshared_of : Option Key → Bool
  preshared_of none = false
  preshared_of (some k) = not (is_blank (hex_encode k)) && not (str_eq (hex_encode k) zero_key)

  -- The peer that is read for a configuration of it.
  abbrev pub peer_of : WgPeerConfig IpNet Ip → Peer IpNet Ip
  peer_of p = record {
    public_key = base64 p.public_key;
    endpoint = endpoint_of p.endpoint;
    allowed_ips = p.allowed_ips;
    tx_bytes = pos 0;
    rx_bytes = pos 0;
    last_handshake = none;
    preshared_key = preshared_of p.preshared_key;
  }

  -- There is no endpoint, or it is of an IPv4 address.
  abbrev pub IsV4 : Option (UdpAddr Ip) → Type 0
  IsV4 none = Unit
  IsV4 (some e) = (env.is_v4 e.ip ≡ true) × IsInt64 e.port

  -- The configuration is read back: its key is one, the allowed IPs are networks, and the endpoint is
  -- of an IPv4 address.
  abbrev pub IsReadable : WgPeerConfig IpNet Ip → Type 0
  IsReadable p =
      IsKey32 p.public_key
      × All (λ n. parse_cidr (ip_net_string n) ≡ some n) p.allowed_ips
      × IsV4 p.endpoint

  pub key-read : (k : Key) → IsKey32 k → hex_to_wireguard_key env (hex_encode k) ≡ some k
  unfolding hex_to_wireguard_key
  key-read k h = ground (arith, h.0, laws.hex_lem k h.1)

  public_key-read :
      (k : Key) (s : Status env)
      → IsKey32 k
      → status_entry env "public_key" (hex_encode k) s ≡ at (save_peer env s) (new_peer env k)
  unfolding status_entry
  public_key-read k s h = ground (arith, key-read k h)

  preshared-read :
      (st : Stats IpNet Ip) (p : Peer IpNet Ip) (o : Option Key) (es : List Entry)
      → p.preshared_key ≡ false
      → status_entries (opt env "preshared_key" hex_encode o es) (at st p)
        ≡ status_entries es (at st (record p { preshared_key = preshared_of o }))
  unfolding status_entries status_entry peer_line
  preshared-read st p none es h =
      ap (λ b. status_entries es (at st (record p { preshared_key = b }))) h
  preshared-read st p (some k) es h = ap (λ q. status_entries es (at st q)) (ground (arith, h))

  endpoint-read :
      (st : Stats IpNet Ip) (p : Peer IpNet Ip) (o : Option (UdpAddr Ip)) (es : List Entry)
      → p.endpoint ≡ record { ip = env.no_ip; port = pos 0 }
      → IsV4 o
      → status_entries (opt env "endpoint" udp_string o es) (at st p)
        ≡ status_entries es (at st (record p { endpoint = endpoint_of o }))
  unfolding status_entries status_entry peer_line
  endpoint-read st p none es h v = ap (λ b. status_entries es (at st (record p { endpoint = b }))) h
  endpoint-read st p (some e) es h v =
      ap (λ q. status_entries es (at st q)) (ground (arith, h, read_endpoint-v4 env laws e v.0 v.1))

  flag-read :
      (b : Bool) (es : List Entry) (s : Status env)
      → status_entries (flag env "replace_allowed_ips" b es) s ≡ status_entries es s
  unfolding status_entries status_entry peer_line
  flag-read true es s = refl
  flag-read false es s = refl

  pub replace-read :
      (b : Bool) (es : List Entry) (s : Status env)
      → status_entries (flag env "replace_peers" b es) s ≡ status_entries es s
  unfolding status_entries status_entry peer_line
  replace-read true es s = refl
  replace-read false es s = refl

  keepalive-read :
      (show : ℤ → String) (o : Option ℤ) (es : List Entry) (s : Status env)
      → status_entries (opt env "persistent_keepalive_interval" show o es) s ≡ status_entries es s
  unfolding status_entries status_entry peer_line
  keepalive-read show none es s = refl
  keepalive-read show (some d) es s = refl

  allowed-read :
      (st : Stats IpNet Ip) (p : Peer IpNet Ip) (ns : List IpNet) (es : List Entry)
      → All (λ n. parse_cidr (ip_net_string n) ≡ some n) ns
      → status_entries (allowed_entries env ns es) (at st p)
        ≡ status_entries es (at st (record p { allowed_ips = p.allowed_ips ++ ns }))
  unfolding status_entries allowed_entries
  allowed-read st p [] es h =
      ap (λ ns. status_entries es (at st (record p { allowed_ips = ns })))
        (sym (append-nil p.allowed_ips))
  allowed-read st p (n ∷ ns) es (h, k) =
      ap (status_entries (allowed_entries env ns es)) one
      ∙ allowed-read st (record p { allowed_ips = p.allowed_ips ++ (n ∷ []) }) ns es k
      ∙ ap (λ xs. status_entries es (at st (record p { allowed_ips = xs })))
          (append_assoc p.allowed_ips (n ∷ []) ns)
    where
      one :
          status_entry env "allowed_ip" (ip_net_string n) (at st p)
          ≡ at st (record p { allowed_ips = p.allowed_ips ++ (n ∷ []) })
      one = unfold status_entry in unfold peer_line in ground (arith, h)

  peer-read :
      (p : WgPeerConfig IpNet Ip) (es : List Entry) (s : Status env)
      → IsReadable p
      → status_entries (peer_entries env p es) s
        ≡ status_entries es (at (save_peer env s) (peer_of p))
  unfolding status_entries
  peer-read p es s (h, k, v) =
      let st = save_peer env s in
      let secs : ℤ → String = λ d. format_int (whole_seconds d) in
      let es1 = opt env "persistent_keepalive_interval" secs p.persistent_keepalive_interval es in
      let es2 = opt env "endpoint" udp_string p.endpoint es1 in
      let es3 = allowed_entries env p.allowed_ips es2 in
      let es4 = flag env "replace_allowed_ips" p.replace_allowed_ips es3 in
      let es5 = opt env "preshared_key" hex_encode p.preshared_key es4 in
      let p1 : Peer IpNet Ip = record (new_peer env p.public_key) {
        preshared_key = preshared_of p.preshared_key;
      } in
      let p2 : Peer IpNet Ip = record p1 { allowed_ips = p.allowed_ips } in
      ap (status_entries es5) (public_key-read p.public_key s h)
      ∙ preshared-read st (new_peer env p.public_key) p.preshared_key es4 refl
      ∙ flag-read p.replace_allowed_ips es3 (at st p1)
      ∙ allowed-read st p1 p.allowed_ips es2 k
      ∙ endpoint-read st p2 p.endpoint es1 refl v
      ∙ keepalive-read secs p.persistent_keepalive_interval es (at st (peer_of p))

  pub peers-read :
      (ps : List (WgPeerConfig IpNet Ip)) (s : Status env)
      → All IsReadable ps
      → save_peer env (status_entries (peers_entries env ps) s)
        ≡ with_peers (map peer_of ps) (save_peer env s)
  unfolding peers_entries status_entries
  peers-read [] s h =
      let st = save_peer env s in ap (λ xs. record st { peers = xs }) (sym (append-nil st.peers))
  peers-read (p ∷ ps) s (h, k) =
      let st = save_peer env s in
      ap (save_peer env) (peer-read p (peers_entries env ps) s h)
      ∙ peers-read ps (at st (peer_of p)) k
      ∙ ap (λ xs. record st { peers = xs })
          (append_assoc st.peers (peer_of p ∷ []) (map peer_of ps))

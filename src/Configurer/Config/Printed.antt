-- ===== src/Configurer/Config/Printed.antt =====
-- The text of a configuration, line by line.
use Prim.Native.String.{◌++◌ as append}
use text.Mathlib.TextLemmas.{nil-append, cons-append, append_assoc}
use netbird_minimal.Common.{
  String, ◌≡◌, refl, sym, ap, ◌∙◌, Bool, true, false, Option, none, some, List, [], ◌∷◌, map,
  if◌then◌else◌, All,
}
use netbird_minimal.Common.Lines.{newline, unlines}
use netbird_minimal.Configurer.WgEnv.{ℤ, WgEnv}
use netbird_minimal.Configurer.Config.{
  whole_seconds, WgPeerConfig, WgConfig, put, put_opt, put_allowed_ips, put_peer, put_peers,
  to_wg_userspace_string,
}

abbrev pub Entry : Type 0
Entry = String × String

-- The line of an entry.
abbrev pub entry : Entry → String
entry e = append e.0 (String.◌∷◌ "=" e.1)

abbrev pub printed : List Entry → String
printed es = unlines (map entry es)

-- What `put` writes is one more line.
put-printed : (k v : String) (es : List Entry) → put k v (printed es) ≡ printed ((k, v) ∷ es)
unfolding unlines
put-printed k v es =
    ap (λ s. append k s)
      (cons-append "=" "" (append v (append "\n" (printed es)))
        ∙ ap (λ s. String.◌∷◌ "=" s) (nil-append _))
    ∙ ap (λ s. append k (String.◌∷◌ "=" (append v s)))
        (cons-append newline "" (printed es) ∙ ap (λ s. String.◌∷◌ newline s) (nil-append _))
    ∙ sym (
        append_assoc k (String.◌∷◌ "=" v) (String.◌∷◌ newline (printed es))
        ∙ ap (append k) (cons-append "=" v (String.◌∷◌ newline (printed es))))

module _ (env : WgEnv) where
  open env use {IpNet, Ip, format_int, hex_encode, ip_net_string, udp_string}

  -- an entry for a value that there is
  abbrev pub opt : {A : Type 0} → String → (A → String) → Option A → List Entry → List Entry
  opt key show none es = es
  opt key show (some a) es = (key, show a) ∷ es

  unfoldable pub allowed_entries : List IpNet → List Entry → List Entry
  allowed_entries [] es = es
  allowed_entries (n ∷ ns) es = ("allowed_ip", ip_net_string n) ∷ allowed_entries ns es

  abbrev pub tail_entries : WgPeerConfig IpNet Ip → List Entry → List Entry
  tail_entries p es = allowed_entries p.allowed_ips (
      opt "endpoint" udp_string p.endpoint (
        opt "persistent_keepalive_interval" (λ d. format_int (whole_seconds d))
          p.persistent_keepalive_interval es))

  abbrev pub flag : String → Bool → List Entry → List Entry
  flag key b es = if b then (key, "true") ∷ es else es

  -- the entries of a peer that is not removed
  abbrev pub peer_entries : WgPeerConfig IpNet Ip → List Entry → List Entry
  peer_entries p es =
      ("public_key", hex_encode p.public_key)
      ∷ opt "preshared_key" hex_encode p.preshared_key
          (flag "replace_allowed_ips" p.replace_allowed_ips (tail_entries p es))

  unfoldable pub peers_entries : List (WgPeerConfig IpNet Ip) → List Entry
  peers_entries [] = []
  peers_entries (p ∷ ps) = peer_entries p (peers_entries ps)

  abbrev pub config_entries : WgConfig IpNet Ip → List Entry
  config_entries c = opt "private_key" hex_encode c.private_key (
      opt "listen_port" format_int c.listen_port (
        flag "replace_peers" c.replace_peers
          (opt "fwmark" format_int c.firewall_mark (peers_entries c.peers))))

  opt-printed :
      {A : Type 0} (key : String) (show : A → String) (o : Option A) (es : List Entry)
      → put_opt env key show o (printed es) ≡ printed (opt key show o es)
  opt-printed key show none es = refl
  opt-printed key show (some a) es = put-printed key (show a) es

  flag-printed :
      (key : String) (b : Bool) (es : List Entry)
      → (if b then put key "true" (printed es) else printed es) ≡ printed (flag key b es)
  flag-printed key true es = put-printed key "true" es
  flag-printed key false es = refl

  allowed-printed :
      (ns : List IpNet) (es : List Entry)
      → put_allowed_ips env ns (printed es) ≡ printed (allowed_entries ns es)
  unfolding put_allowed_ips allowed_entries
  allowed-printed [] es = refl
  allowed-printed (n ∷ ns) es =
      ap (put "allowed_ip" (ip_net_string n)) (allowed-printed ns es)
      ∙ put-printed "allowed_ip" (ip_net_string n) (allowed_entries ns es)

  peer-printed :
      (p : WgPeerConfig IpNet Ip) (es : List Entry)
      → p.remove ≡ false
      → put_peer env p (printed es) ≡ printed (peer_entries p es)
  unfolding put_peer
  peer-printed p es h =
      let secs : ℤ → String = λ d. format_int (whole_seconds d) in
      let es1 = opt "persistent_keepalive_interval" secs p.persistent_keepalive_interval es in
      let es2 = opt "endpoint" udp_string p.endpoint es1 in
      let es3 = allowed_entries p.allowed_ips es2 in
      let es4 = flag "replace_allowed_ips" p.replace_allowed_ips es3 in
      let es5 = opt "preshared_key" hex_encode p.preshared_key es4 in
      rw (opt-printed "persistent_keepalive_interval" secs p.persistent_keepalive_interval es) (
        rw (opt-printed "endpoint" udp_string p.endpoint es1) (
          rw (allowed-printed p.allowed_ips es2) (
            rw (flag-printed "replace_allowed_ips" p.replace_allowed_ips es3) (
              rw h (
                rw (opt-printed "preshared_key" hex_encode p.preshared_key es4)
                  (put-printed "public_key" (hex_encode p.public_key) es5))))))

  -- No peer is removed.
  abbrev pub IsKept : WgPeerConfig IpNet Ip → Type 0
  IsKept p = p.remove ≡ false

  peers-printed :
      (ps : List (WgPeerConfig IpNet Ip))
      → All IsKept ps
      → put_peers env ps ≡ printed (peers_entries ps)
  unfolding put_peers peers_entries unlines
  peers-printed [] h = refl
  peers-printed (p ∷ ps) (h, k) =
      ap (put_peer env p) (peers-printed ps k) ∙ peer-printed p (peers_entries ps) h

  -- A configuration that removes no peer is printed as its entries, one in a line.
  pub to_wg_userspace_string-printed :
      (c : WgConfig IpNet Ip)
      → All IsKept c.peers
      → to_wg_userspace_string env c ≡ printed (config_entries c)
  unfolding to_wg_userspace_string
  to_wg_userspace_string-printed c h =
      let es1 = peers_entries c.peers in
      let es2 = opt "fwmark" format_int c.firewall_mark es1 in
      let es3 = flag "replace_peers" c.replace_peers es2 in
      let es4 = opt "listen_port" format_int c.listen_port es3 in
      rw (peers-printed c.peers h) (
        rw (opt-printed "fwmark" format_int c.firewall_mark es1) (
          rw (flag-printed "replace_peers" c.replace_peers es2) (
            rw (opt-printed "listen_port" format_int c.listen_port es3)
              (opt-printed "private_key" hex_encode c.private_key es4))))

-- ===== src/Configurer/Config/Solid.antt =====
-- The lines of a printed configuration have no white space, and a key has no "=".
use netbird_minimal.Common.{
  String, ◌≡◌, refl, Bool, true, false, Option, none, some, List, [], ◌∷◌, map, arith, All, ◌==◌,
}
use netbird_minimal.Common.Split.{is_space, lacks}
use netbird_minimal.Common.Lines.{IsSolid, lacks-append, blank-append}
use netbird_minimal.Configurer.WgEnv.{WgEnv, WgLaws}
use netbird_minimal.Configurer.Config.{whole_seconds, WgPeerConfig, WgConfig}
use netbird_minimal.Configurer.Config.Printed.{
  Entry, entry, opt, allowed_entries, flag, peers_entries, config_entries,
}

-- A key without "=" and white space, and a value without white space.
abbrev pub IsKey : String → Type 0
IsKey k = (lacks (λ x. x == b'=') k ≡ true) × (lacks is_space k ≡ true)

abbrev pub IsEntry : Entry → Type 0
IsEntry e = IsKey e.0 × (lacks is_space e.1 ≡ true)

entry-IsSolid : (e : Entry) → IsEntry e → IsSolid (entry e)
unfolding lacks
entry-IsSolid (k, v) (a, b) = (
  blank-append k (String.◌∷◌ "=" v) refl,
  ground (arith, lacks-append is_space k (String.◌∷◌ "=" v), a.1),
)

pub entries-IsSolid : (es : List Entry) → All IsEntry es → All IsSolid (map entry es)
entries-IsSolid [] h = tt
entries-IsSolid (e ∷ es) (h, k) = (entry-IsSolid e h, entries-IsSolid es k)

module _ (env : WgEnv) (laws : WgLaws env) where
  open env use {IpNet, Ip, format_int, hex_encode, ip_net_string, udp_string}

  opt-IsEntry :
      {A : Type 0} (key : String) (show : A → String)
      → IsKey key
      → ((a : A) → lacks is_space (show a) ≡ true)
      → (o : Option A) (es : List Entry) → All IsEntry es
      → All IsEntry (opt env key show o es)
  opt-IsEntry key show k l none es h = h
  opt-IsEntry key show k l (some a) es h = ((k, l a), h)

  flag-IsEntry :
      (key : String)
      → IsKey key
      → (b : Bool) (es : List Entry) → All IsEntry es
      → All IsEntry (flag env key b es)
  unfolding lacks
  flag-IsEntry key k true es h = ((k, refl), h)
  flag-IsEntry key k false es h = h

  allowed-IsEntry :
      (ns : List IpNet) (es : List Entry) → All IsEntry es → All IsEntry (allowed_entries env ns es)
  unfolding allowed_entries lacks
  allowed-IsEntry [] es h = h
  allowed-IsEntry (n ∷ ns) es h = (((refl, refl), laws.ip_net_lacks n), allowed-IsEntry ns es h)

  peers-IsEntry : (ps : List (WgPeerConfig IpNet Ip)) → All IsEntry (peers_entries env ps)
  unfolding peers_entries lacks
  peers-IsEntry [] = tt
  peers-IsEntry (p ∷ ps) = (
    ((refl, refl), laws.hex_lacks p.public_key),
    opt-IsEntry "preshared_key" hex_encode (refl, refl) laws.hex_lacks p.preshared_key _
        (flag-IsEntry "replace_allowed_ips" (refl, refl) p.replace_allowed_ips _
          (allowed-IsEntry p.allowed_ips _ (
            opt-IsEntry "endpoint" udp_string (refl, refl) laws.udp_lacks p.endpoint _
              (opt-IsEntry "persistent_keepalive_interval" (λ d. format_int (whole_seconds d))
                (refl, refl) (λ d. laws.int_lacks (whole_seconds d)) p.persistent_keepalive_interval
                _ (peers-IsEntry ps))))),
  )

  pub config-IsEntry : (c : WgConfig IpNet Ip) → All IsEntry (config_entries env c)
  unfolding lacks
  config-IsEntry c =
      opt-IsEntry "private_key" hex_encode (refl, refl) laws.hex_lacks c.private_key _
        (opt-IsEntry "listen_port" format_int (refl, refl) laws.int_lacks c.listen_port _
          (flag-IsEntry "replace_peers" (refl, refl) c.replace_peers _
            (opt-IsEntry "fwmark" format_int (refl, refl) laws.int_lacks c.firewall_mark _
              (peers-IsEntry c.peers))))

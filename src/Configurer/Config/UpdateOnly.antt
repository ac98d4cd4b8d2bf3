-- ===== src/Configurer/Config/UpdateOnly.antt =====
-- What toWgUserspaceString of go/iface/configurer/usp.go does with UpdateOnly.
use netbird_minimal.Common.{String, ◌≡◌, refl, ap, Bool, if◌then◌else◌, List, [], ◌∷◌, map}
use netbird_minimal.Configurer.WgEnv.{WgEnv}
use netbird_minimal.Configurer.Config.{
  WgPeerConfig, WgConfig, put, put_peer, put_peers, put_opt, to_wg_userspace_string,
}

module _ (env : WgEnv) where
  open env use {IpNet, Ip}

  abbrev pub updating : Bool → WgPeerConfig IpNet Ip → WgPeerConfig IpNet Ip
  updating b p = record p { update_only = b }

  put_peers-updating :
      (b : Bool) (ps : List (WgPeerConfig IpNet Ip))
      → put_peers env (map (updating b) ps) ≡ put_peers env ps
  unfolding put_peers put_peer
  put_peers-updating b [] = refl
  put_peers-updating b (p ∷ ps) = ap (put_peer env p) (put_peers-updating b ps)

  -- The text of a configuration does not depend on UpdateOnly of its peers, so that the device
  -- cannot tell an update of a peer from a new peer.
  pub to_wg_userspace_string-updating :
      (b : Bool) (c : WgConfig IpNet Ip)
      → to_wg_userspace_string env (record c { peers = map (updating b) c.peers })
        ≡ to_wg_userspace_string env c
  unfolding to_wg_userspace_string
  to_wg_userspace_string-updating b c =
      ap
        (λ text.
          put_opt env "private_key" env.hex_encode c.private_key
            (put_opt env "listen_port" env.format_int c.listen_port (written text)))
        (put_peers-updating b c.peers)
    where
      written : String → String
      written text =
          let marked = put_opt env "fwmark" env.format_int c.firewall_mark text in
          if c.replace_peers then put "replace_peers" "true" marked else marked

-- ===== src/Configurer/Kernel/Allowed.antt =====
-- What RemoveAllowedIP of go/iface/configurer/kernel_unix.go leaves of the allowed IPs of a peer.
use netbird_minimal.Common.{
  ◌+◌, String, ◌≡◌, true, ◌&&◌, some, List, [], ◌∷◌, map, arith, if◌then◌else◌, count, contains,
  str_eq, str_eq_iff,
}
use netbird_minimal.Common.Outcome.{ok}
use netbird_minimal.Configurer.WgEnv.{Key, WgEnv}
use netbird_minimal.Configurer.Device.{peer_config, peers_config}
use netbird_minimal.Configurer.Kernel.{
  KernelEnv, WgPeer, configure, get_peer, without_ip, remove_allowed_ip,
}

module _ (env : WgEnv) where
  open env use {IpNet, ip_net_string}

  -- The networks as they are printed.
  abbrev pub texts : List IpNet → List String
  texts ns = map ip_net_string ns

module _ (env : WgEnv) (kernel : KernelEnv env) where
  open env use {IpNet, ip_net_string, to_ip_net}

  without_ip-count :
      (n : IpNet) (t : String) (ns : List IpNet)
      → count t (texts env (without_ip env kernel n ns))
          + (if str_eq (ip_net_string n) t && contains (ip_net_string n) (texts env ns)
              then 1
              else 0)
        ≡ count t (texts env ns)
  unfolding without_ip count contains
  without_ip-count n t [] = ground arith
  without_ip-count n t (m ∷ ms) = ground (
    arith,
    without_ip-count n t ms,
    str_eq_iff (ip_net_string m) (ip_net_string n),
    str_eq_iff (ip_net_string m) t,
    str_eq_iff (ip_net_string n) t,
  )

  -- For a peer that the kernel has, RemoveAllowedIP configures its allowed IPs less one occurrence of
  -- the address, if it is among them, and else all of them.
  pub remove_allowed_ip-once :
      (k : String) (key : Key) (ip : env.Prefix) (p : WgPeer IpNet env.Ip) (w w1 : env.World)
      → env.parse_key k ≡ some key
      → get_peer env kernel k w ≡ (ok p, w1)
      → (ns : List IpNet) × (remove_allowed_ip env kernel k ip w
          ≡ configure env kernel
              (peers_config env (
                record (peer_config env key) {
                  update_only = true;
                  replace_allowed_ips = true;
                  allowed_ips = ns;
                }
                ∷ []))
              w1)
        × ((t : String)
            → count t (texts env ns)
                + (if str_eq (ip_net_string (to_ip_net ip)) t
                      && contains (ip_net_string (to_ip_net ip)) (texts env p.allowed_ips)
                    then 1
                    else 0)
              ≡ count t (texts env p.allowed_ips))
  remove_allowed_ip-once k key ip p w w1 q r = (
    without_ip env kernel (to_ip_net ip) p.allowed_ips,
    unfold remove_allowed_ip in ground (arith, q, r),
    λ t. without_ip-count (to_ip_net ip) t p.allowed_ips,
  )

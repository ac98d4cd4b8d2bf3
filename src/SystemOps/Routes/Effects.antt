-- ===== src/SystemOps/Routes/Effects.antt =====
-- What AddVPNRoute and RemoveVPNRoute of go/internal/routemanager/systemops/systemops_linux.go do
-- to the routes of the kernel.
use mathlib.Core.Path.{subst}
use netbird_minimal.Common.{
  ℕ, String, ◌≡◌, refl, sym, Bool, true, false, ◌⊎◌, Option, none, some, arith, inl, inr,
}
use netbird_minimal.SystemOps.Types.{
  Family, Errno, esrch, enoent, NlRoute, SysError, is_op_err, netbird_vpn_table_id,
}
use netbird_minimal.SystemOps.Env.{Netip, Kernel}
use netbird_minimal.SystemOps.Routes.{
  add_answer, del_answer, del_unreachable_answer, add_next_hop, universe_route, unreachable_route,
  add_route, remove_route, add_unreachable_route, remove_unreachable_route, vpn_hop, then_do,
  finish,
}

-- The documented behaviour of the kernel's routes.
pub record RouteLaws {net : Netip} (kernel : Kernel net) : Type 1 where
  -- a route is in its table
  pub Has : kernel.World → NlRoute (net.IpNet) (net.Addr) → Type 0
  -- the kernel has the address family
  pub supported : Family → Bool
  pub zero_addr_invalid : net.is_valid (net.no_addr) ≡ false
  pub add_none :
      (r : NlRoute (net.IpNet) (net.Addr)) (w : kernel.World)
      → (kernel.route_add r w).0 ≡ none
      → Has (kernel.route_add r w).1 r
  pub add_unsupported :
      (r : NlRoute (net.IpNet) (net.Addr)) (w : kernel.World) (n : Errno)
      → (kernel.route_add r w).0 ≡ some n
      → is_op_err n ≡ true
      → supported r.family ≡ false
  pub add_keeps :
      (r s : NlRoute (net.IpNet) (net.Addr)) (w : kernel.World)
      → Has w s
      → Has (kernel.route_add r w).1 s
  pub del_none :
      (r : NlRoute (net.IpNet) (net.Addr)) (w : kernel.World)
      → (kernel.route_del r w).0 ≡ none
      → ¬ Has (kernel.route_del r w).1 r
  pub del_missing :
      (r : NlRoute (net.IpNet) (net.Addr)) (w : kernel.World) (n : Errno)
      → (kernel.route_del r w).0 ≡ some n
      → (n ≡ esrch) ⊎ (n ≡ enoent)
      → ¬ Has (kernel.route_del r w).1 r
  pub del_unsupported :
      (r : NlRoute (net.IpNet) (net.Addr)) (w : kernel.World) (n : Errno)
      → (kernel.route_del r w).0 ≡ some n
      → is_op_err n ≡ true
      → supported r.family ≡ false
  pub del_keeps_out :
      (r s : NlRoute (net.IpNet) (net.Addr)) (w : kernel.World)
      → ¬ Has w s
      → ¬ Has (kernel.route_del r w).1 s

module _ (net : Netip) (kernel : Kernel net) (laws : RouteLaws kernel) where
  open net use {Addr, Prefix, IpNet}
  open kernel use {World}
  open laws use {Has, supported}

  -- The route of a VPN prefix through an interface.
  abbrev pub vpn_route : Prefix → IpNet → Option ℕ → NlRoute IpNet Addr
  vpn_route prefix ip_net none = universe_route net kernel prefix ip_net netbird_vpn_table_id
  vpn_route prefix ip_net (some i) =
      record (universe_route net kernel prefix ip_net netbird_vpn_table_id) { link_index = i }

  -- A route is there, where the kernel has its address family.
  abbrev pub IsRouted : World → NlRoute IpNet Addr → Type 0
  IsRouted w r = supported r.family ≡ true → Has w r

  -- A route is not there, where the kernel has its address family.
  abbrev pub IsUnrouted : World → NlRoute IpNet Addr → Type 0
  IsUnrouted w r = supported r.family ≡ true → ¬ Has w r

  clash : (b : Bool) → b ≡ true → b ≡ false → ⊥
  clash b x y = ground arith

  -- The kernel took the route, or has not its family.
  routed :
      (r : NlRoute IpNet Addr) (w : World)
      → ((kernel.route_add r w).0 ≡ none)
        ⊎ ((n : Errno) × ((kernel.route_add r w).0 ≡ some n) × (is_op_err n ≡ true))
      → IsRouted (kernel.route_add r w).1 r
  routed r w (inl e) on = laws.add_none r w e
  routed r w (inr (n, e, off)) on =
      absurd (clash (supported r.family) on (laws.add_unsupported r w n e off))

  unrouted :
      (r : NlRoute IpNet Addr) (w : World)
      → ((kernel.route_del r w).0 ≡ none)
        ⊎ ((n : Errno) × ((kernel.route_del r w).0 ≡ some n)
            × (((n ≡ esrch) ⊎ (n ≡ enoent)) ⊎ (is_op_err n ≡ true)))
      → IsUnrouted (kernel.route_del r w).1 r
  unrouted r w (inl e) on = laws.del_none r w e
  unrouted r w (inr (n, e, inl missing)) on = laws.del_missing r w n e missing
  unrouted r w (inr (n, e, inr off)) on =
      absurd (clash (supported r.family) on (laws.del_unsupported r w n e off))

  pub vpn_hop-route :
      (prefix : Prefix) (ip_net : IpNet) (intf : Option ℕ) (w : World)
      → add_next_hop net kernel
          (vpn_hop net kernel intf)
          (universe_route net kernel prefix ip_net netbird_vpn_table_id)
          w
        ≡ some (vpn_route prefix ip_net intf)
  unfolding add_next_hop
  vpn_hop-route prefix ip_net none w = rw (laws.zero_addr_invalid)
  vpn_hop-route prefix ip_net (some i) w = rw (laws.zero_addr_invalid)

  add_answer-routed :
      (s : String) (r : NlRoute IpNet Addr) (w : World)
      → (add_answer net kernel s (kernel.route_add r w)).0 ≡ none
      → ((kernel.route_add r w).0 ≡ none)
        ⊎ ((n : Errno) × ((kernel.route_add r w).0 ≡ some n) × (is_op_err n ≡ true))
  add_answer-routed s r w h = answers (kernel.route_add r w) h
    where
      answers :
          (a : Option Errno × World)
          → (add_answer net kernel s a).0 ≡ none
          → (a.0 ≡ none) ⊎ ((n : Errno) × (a.0 ≡ some n) × (is_op_err n ≡ true))
      answers (none, v) q = inl refl
      answers (some n, v) q = inr (n, refl, unfold add_answer in ground arith)

  add_answer-world : (s : String) (a : Option Errno × World) → (add_answer net kernel s a).1 ≡ a.1
  unfolding add_answer
  add_answer-world s (none, v) = refl
  add_answer-world s (some n, v) = refl

  -- What a successful RouteAdd leaves behind: the route, and those of before.
  abbrev pub Added : NlRoute IpNet Addr → World → World → Type 0
  Added r w w' = IsRouted w' r × ((s : NlRoute IpNet Addr) → Has w s → Has w' s)

  pub add_answer-Added :
      (m : String) (r : NlRoute IpNet Addr) (w : World)
      → (add_answer net kernel m (kernel.route_add r w)).0 ≡ none
      → Added r w (add_answer net kernel m (kernel.route_add r w)).1
  add_answer-Added m r w h =
      subst (λ v. Added r w v) (sym (add_answer-world m (kernel.route_add r w)))
        (routed r w (add_answer-routed m r w h), λ s old. laws.add_keeps r s w old)

  pub add_route-run :
      (prefix : Prefix) {ip_net : IpNet} (intf : Option ℕ) (w : World)
      → net.to_ip_net prefix ≡ some ip_net
      → add_route net kernel prefix (vpn_hop net kernel intf) netbird_vpn_table_id w
        ≡ add_answer net kernel "netlink add route"
            (kernel.route_add (vpn_route prefix ip_net intf) w)
  unfolding add_route
  add_route-run prefix {ip_net} intf w e = rw (e, add_route, vpn_hop-route prefix ip_net intf w)

  pub add_unreachable-run :
      (prefix : Prefix) {ip_net : IpNet} (w : World)
      → net.to_ip_net prefix ≡ some ip_net
      → add_unreachable_route net kernel prefix netbird_vpn_table_id w
        ≡ add_answer net kernel "netlink add unreachable route"
            (kernel.route_add (unreachable_route net kernel prefix ip_net netbird_vpn_table_id) w)
  unfolding add_unreachable_route
  add_unreachable-run prefix w e = rw (e, add_unreachable_route)

  del_answer-world : (a : Option Errno × World) → (del_answer net kernel a).1 ≡ a.1
  unfolding del_answer
  del_answer-world (none, v) = refl
  del_answer-world (some n, v) = refl

  del_unreachable_answer-world :
      (a : Option Errno × World) → (del_unreachable_answer net kernel a).1 ≡ a.1
  unfolding del_unreachable_answer
  del_unreachable_answer-world (none, v) = refl
  del_unreachable_answer-world (some n, v) = refl

  -- The answers of RouteDel that are taken for success.
  abbrev IsGone : Option Errno → Type 0
  IsGone e =
      (e ≡ none)
      ⊎ ((n : Errno) × (e ≡ some n) × (((n ≡ esrch) ⊎ (n ≡ enoent)) ⊎ (is_op_err n ≡ true)))

  del_answer-IsGone : (a : Option Errno × World) → (del_answer net kernel a).0 ≡ none → IsGone a.0
  unfolding del_answer
  del_answer-IsGone (none, v) h = inl refl
  del_answer-IsGone (some n, v) h = inr (n, refl, ground arith)

  del_unreachable_answer-IsGone :
      (a : Option Errno × World) → (del_unreachable_answer net kernel a).0 ≡ none → IsGone a.0
  unfolding del_unreachable_answer
  del_unreachable_answer-IsGone (none, v) h = inl refl
  del_unreachable_answer-IsGone (some n, v) h = inr (n, refl, ground arith)

  -- What a successful RouteDel leaves behind: not the route, and none that was not there.
  abbrev pub Removed : NlRoute IpNet Addr → World → World → Type 0
  Removed r w w' = IsUnrouted w' r × ((s : NlRoute IpNet Addr) → ¬ Has w s → ¬ Has w' s)

  pub del_answer-Removed :
      (r : NlRoute IpNet Addr) (w : World)
      → (del_answer net kernel (kernel.route_del r w)).0 ≡ none
      → Removed r w (del_answer net kernel (kernel.route_del r w)).1
  del_answer-Removed r w h =
      subst (λ v. Removed r w v) (sym (del_answer-world (kernel.route_del r w)))
        (
          unrouted r w (del_answer-IsGone (kernel.route_del r w) h),
          λ s out. laws.del_keeps_out r s w out,
        )

  pub del_unreachable_answer-Removed :
      (r : NlRoute IpNet Addr) (w : World)
      → (del_unreachable_answer net kernel (kernel.route_del r w)).0 ≡ none
      → Removed r w (del_unreachable_answer net kernel (kernel.route_del r w)).1
  del_unreachable_answer-Removed r w h =
      subst (λ v. Removed r w v) (sym (del_unreachable_answer-world (kernel.route_del r w)))
        (
          unrouted r w (del_unreachable_answer-IsGone (kernel.route_del r w) h),
          λ s out. laws.del_keeps_out r s w out,
        )

  pub remove_route-run :
      (prefix : Prefix) {ip_net : IpNet} (intf : Option ℕ) (w : World)
      → net.to_ip_net prefix ≡ some ip_net
      → remove_route net kernel prefix (vpn_hop net kernel intf) netbird_vpn_table_id w
        ≡ del_answer net kernel (kernel.route_del (vpn_route prefix ip_net intf) w)
  unfolding remove_route
  remove_route-run prefix {ip_net} intf w e =
      rw (e, remove_route, vpn_hop-route prefix ip_net intf w)

  pub remove_unreachable-run :
      (prefix : Prefix) {ip_net : IpNet} (w : World)
      → net.to_ip_net prefix ≡ some ip_net
      → remove_unreachable_route net kernel prefix netbird_vpn_table_id w
        ≡ del_unreachable_answer net kernel
            (kernel.route_del (unreachable_route net kernel prefix ip_net netbird_vpn_table_id) w)
  unfolding remove_unreachable_route
  remove_unreachable-run prefix w e = rw (e, remove_unreachable_route)

  -- A sequence of two steps that ended well.
  pub two_steps :
      (r : Option SysError × World) (m1 m2 : String) (k : World → Option SysError × World)
      → (then_do net kernel r m1 (λ v. then_do net kernel (k v) m2 (finish net kernel))).0 ≡ none
      → (r.0 ≡ none)
        × ((k r.1).0 ≡ none)
        × ((then_do net kernel r m1 (λ v. then_do net kernel (k v) m2 (finish net kernel))).1
            ≡ (k r.1).1)
  two_steps (some e, v) m1 m2 k h = absurd (ground arith)
  two_steps (none, v) m1 m2 k h = let (a, b) = last (k v) h in (refl, a, b)
    where
      last :
          (q : Option SysError × World)
          → (then_do net kernel q m2 (finish net kernel)).0 ≡ none
          → (q.0 ≡ none) × ((then_do net kernel q m2 (finish net kernel)).1 ≡ q.1)
      last (none, u) g = (refl, refl)
      last (some e, u) g = absurd (ground arith)

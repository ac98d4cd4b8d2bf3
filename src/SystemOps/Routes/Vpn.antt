-- ===== src/SystemOps/Routes/Vpn.antt =====
-- AddVPNRoute and RemoveVPNRoute of go/internal/routemanager/systemops/systemops_linux.go with
-- advanced routing: the routes that are there afterwards, and what an error leaves behind.
use mathlib.Core.Path.{subst}
use netbird_minimal.Common.{
  ℕ, ◌≡◌, sym, ◌∙◌, ap, Bool, true, Option, none, some, arith, if◌then◌else◌, Option-cases, inl,
  inr,
}
use netbird_minimal.SystemOps.Types.{
  NlRoute, SysError, context, route_not_allowed, netbird_vpn_table_id,
}
use netbird_minimal.SystemOps.Env.{Netip, Kernel}
use netbird_minimal.SystemOps.Routes.{
  is_forbidden, validate_route, unreachable_route, add_route, remove_route, add_unreachable_route,
  remove_unreachable_route, vpn_hop, then_do, finish, add_vpn_route, remove_vpn_route,
}
use netbird_minimal.SystemOps.Routes.Effects.{
  RouteLaws, vpn_route, IsRouted, IsUnrouted, Added, Removed, add_answer-Added, add_route-run,
  add_unreachable-run, del_answer-Removed, del_unreachable_answer-Removed, remove_route-run,
  remove_unreachable-run, two_steps,
}

module _ (net : Netip) (kernel : Kernel net) where
  open net use {Prefix}
  open kernel use {World}

  -- AddVPNRoute and RemoveVPNRoute refuse the same prefixes, whatever the routing mode, and a
  -- refused prefix changes nothing.
  pub vpn_route-refused :
      (wg prefix : Prefix) (advanced : Bool) (intf : Option ℕ) (w : World)
      → is_forbidden net kernel wg prefix ≡ true
      → (add_vpn_route net kernel wg advanced prefix intf w ≡ (some route_not_allowed, w))
        × (remove_vpn_route net kernel wg advanced prefix intf w ≡ (some route_not_allowed, w))
  unfolding add_vpn_route remove_vpn_route validate_route
  vpn_route-refused wg prefix advanced intf w h =
      (rw (h, add_vpn_route, validate_route), rw (h, remove_vpn_route, validate_route))

  allowed_of_add :
      (wg prefix : Prefix) (advanced : Bool) (intf : Option ℕ) (w : World)
      → (add_vpn_route net kernel wg advanced prefix intf w).0 ≡ none
      → validate_route net kernel wg prefix ≡ none
  unfolding add_vpn_route
  allowed_of_add wg prefix advanced intf w h =
      elim (Option-cases (validate_route net kernel wg prefix)) [
        | inl e ↦ e
        | inr (x, e) ↦ absurd (ground arith)
      ]

  allowed_of_remove :
      (wg prefix : Prefix) (advanced : Bool) (intf : Option ℕ) (w : World)
      → (remove_vpn_route net kernel wg advanced prefix intf w).0 ≡ none
      → validate_route net kernel wg prefix ≡ none
  unfolding remove_vpn_route
  allowed_of_remove wg prefix advanced intf w h =
      elim (Option-cases (validate_route net kernel wg prefix)) [
        | inl e ↦ e
        | inr (x, e) ↦ absurd (ground arith)
      ]

  -- the first step of AddVPNRoute
  abbrev first_add : Prefix → World → Option SysError × World
  first_add prefix w =
      if net.prefix_eq prefix (net.default_v4)
      then add_unreachable_route net kernel (net.default_v6) netbird_vpn_table_id w
      else (none, w)

  -- the first step of RemoveVPNRoute
  abbrev first_remove : Prefix → World → Option SysError × World
  first_remove prefix w =
      if net.prefix_eq prefix (net.default_v4)
      then remove_unreachable_route net kernel (net.default_v6) netbird_vpn_table_id w
      else (none, w)

  add_vpn-run :
      (wg prefix : Prefix) (intf : Option ℕ) (w : World)
      → validate_route net kernel wg prefix ≡ none
      → add_vpn_route net kernel wg true prefix intf w
        ≡ then_do net kernel (first_add prefix w) "add blackhole" (λ v.
          then_do net kernel
            (add_route net kernel prefix (vpn_hop net kernel intf) netbird_vpn_table_id v)
            "add route"
            (finish net kernel))
  unfolding add_vpn_route
  add_vpn-run wg prefix intf w e = rw (e, add_vpn_route)

  remove_vpn-run :
      (wg prefix : Prefix) (intf : Option ℕ) (w : World)
      → validate_route net kernel wg prefix ≡ none
      → remove_vpn_route net kernel wg true prefix intf w
        ≡ then_do net kernel (first_remove prefix w) "remove unreachable route" (λ v.
          then_do net kernel
            (remove_route net kernel prefix (vpn_hop net kernel intf) netbird_vpn_table_id v)
            "remove route"
            (finish net kernel))
  unfolding remove_vpn_route
  remove_vpn-run wg prefix intf w e = rw (e, remove_vpn_route)

module _ (net : Netip) (kernel : Kernel net) (laws : RouteLaws kernel) where
  open net use {Prefix, IpNet}
  open kernel use {World}

  -- the unreachable default route of IPv6 in the VPN table
  abbrev pub blackhole : IpNet → NlRoute IpNet (net.Addr)
  blackhole six = unreachable_route net kernel (net.default_v6) six netbird_vpn_table_id

  add_route-Added :
      (prefix : Prefix) {ip_net : IpNet} (intf : Option ℕ) (w : World)
      → net.to_ip_net prefix ≡ some ip_net
      → (add_route net kernel prefix (vpn_hop net kernel intf) netbird_vpn_table_id w).0 ≡ none
      → Added net kernel laws
          (vpn_route net kernel laws prefix ip_net intf)
          w
          (add_route net kernel prefix (vpn_hop net kernel intf) netbird_vpn_table_id w).1
  add_route-Added prefix {ip_net} intf w e h =
      let run = add_route-run net kernel laws prefix intf w e in
      subst (λ r. Added net kernel laws (vpn_route net kernel laws prefix ip_net intf) w r.1)
        (sym run)
        (add_answer-Added net kernel laws "netlink add route"
          (vpn_route net kernel laws prefix ip_net intf) w (sym (ap (λ r. r.0) run) ∙ h))

  remove_route-Removed :
      (prefix : Prefix) {ip_net : IpNet} (intf : Option ℕ) (w : World)
      → net.to_ip_net prefix ≡ some ip_net
      → (remove_route net kernel prefix (vpn_hop net kernel intf) netbird_vpn_table_id w).0 ≡ none
      → Removed net kernel laws
          (vpn_route net kernel laws prefix ip_net intf)
          w
          (remove_route net kernel prefix (vpn_hop net kernel intf) netbird_vpn_table_id w).1
  remove_route-Removed prefix {ip_net} intf w e h =
      let run = remove_route-run net kernel laws prefix intf w e in
      subst (λ r. Removed net kernel laws (vpn_route net kernel laws prefix ip_net intf) w r.1)
        (sym run)
        (del_answer-Removed net kernel laws (vpn_route net kernel laws prefix ip_net intf) w
          (sym (ap (λ r. r.0) run) ∙ h))

  blackhole-added :
      (prefix : Prefix) {six : IpNet} (w : World)
      → net.to_ip_net (net.default_v6) ≡ some six
      → net.prefix_eq prefix (net.default_v4) ≡ true
      → (first_add net kernel prefix w).0 ≡ none
      → IsRouted net kernel laws (first_add net kernel prefix w).1 (blackhole six)
  blackhole-added prefix {six} w e d h =
      rw (d, add_unreachable-run net kernel laws (net.default_v6) w e)
        (add_answer-Added net kernel laws "netlink add unreachable route" (blackhole six) w
          (rw (d, add_unreachable-run net kernel laws (net.default_v6) w e) at h)).0

  blackhole-removed :
      (prefix : Prefix) {six : IpNet} (w : World)
      → net.to_ip_net (net.default_v6) ≡ some six
      → net.prefix_eq prefix (net.default_v4) ≡ true
      → (first_remove net kernel prefix w).0 ≡ none
      → IsUnrouted net kernel laws (first_remove net kernel prefix w).1 (blackhole six)
  blackhole-removed prefix {six} w e d h =
      rw (d, remove_unreachable-run net kernel laws (net.default_v6) w e)
        (del_unreachable_answer-Removed net kernel laws (blackhole six) w
          (rw (d, remove_unreachable-run net kernel laws (net.default_v6) w e) at h)).0

  -- After AddVPNRoute without error the route of the prefix through the interface is in the VPN
  -- table, and for the IPv4 default route so is the unreachable IPv6 default route, each where the
  -- kernel has its address family.
  pub add_vpn_route-routed :
      (wg prefix : Prefix) {ip_net six : IpNet} (intf : Option ℕ) (w : World)
      → net.to_ip_net prefix ≡ some ip_net
      → net.to_ip_net (net.default_v6) ≡ some six
      → (add_vpn_route net kernel wg true prefix intf w).0 ≡ none
      → IsRouted net kernel laws
          (add_vpn_route net kernel wg true prefix intf w).1
          (vpn_route net kernel laws prefix ip_net intf)
        × (net.prefix_eq prefix (net.default_v4) ≡ true
            → IsRouted net kernel laws
                (add_vpn_route net kernel wg true prefix intf w).1
                (blackhole six))
  add_vpn_route-routed wg prefix {ip_net} {six} intf w e e6 h =
      let ok = allowed_of_add net kernel wg prefix true intf w h in
      let run = add_vpn-run net kernel wg prefix intf w ok in
      let first = first_add net kernel prefix w in
      let second = λ (v : World).
        add_route net kernel prefix (vpn_hop net kernel intf) netbird_vpn_table_id v in
      let (a, b, c) =
        two_steps net kernel laws first "add blackhole" "add route" second (rw run at h) in
      let (there, keeps) = add_route-Added prefix intf first.1 e b in
      subst
        (λ v.
          IsRouted net kernel laws v (vpn_route net kernel laws prefix ip_net intf)
          × (net.prefix_eq prefix (net.default_v4) ≡ true
              → IsRouted net kernel laws v (blackhole six)))
        (sym (ap (λ r. r.1) run ∙ c))
        (there, λ d on. keeps (blackhole six) (blackhole-added prefix w e6 d a on))

  -- After RemoveVPNRoute without error neither the route of the prefix through the interface nor,
  -- for the IPv4 default route, the unreachable IPv6 default route is in the VPN table, each where
  -- the kernel has its address family.
  pub remove_vpn_route-IsUnrouted :
      (wg prefix : Prefix) {ip_net six : IpNet} (intf : Option ℕ) (w : World)
      → net.to_ip_net prefix ≡ some ip_net
      → net.to_ip_net (net.default_v6) ≡ some six
      → (remove_vpn_route net kernel wg true prefix intf w).0 ≡ none
      → IsUnrouted net kernel laws
          (remove_vpn_route net kernel wg true prefix intf w).1
          (vpn_route net kernel laws prefix ip_net intf)
        × (net.prefix_eq prefix (net.default_v4) ≡ true
            → IsUnrouted net kernel laws
                (remove_vpn_route net kernel wg true prefix intf w).1
                (blackhole six))
  remove_vpn_route-IsUnrouted wg prefix {ip_net} {six} intf w e e6 h =
      let ok = allowed_of_remove net kernel wg prefix true intf w h in
      let run = remove_vpn-run net kernel wg prefix intf w ok in
      let first = first_remove net kernel prefix w in
      let second = λ (v : World).
        remove_route net kernel prefix (vpn_hop net kernel intf) netbird_vpn_table_id v in
      let (a, b, c) =
        two_steps net kernel laws first "remove unreachable route" "remove route" second
          (rw run at h) in
      let (gone, keeps) = remove_route-Removed prefix intf first.1 e b in
      subst
        (λ v.
          IsUnrouted net kernel laws v (vpn_route net kernel laws prefix ip_net intf)
          × (net.prefix_eq prefix (net.default_v4) ≡ true
              → IsUnrouted net kernel laws v (blackhole six)))
        (sym (ap (λ r. r.1) run ∙ c))
        (gone, λ d on. keeps (blackhole six) (blackhole-removed prefix w e6 d a on))

  -- AddVPNRoute of the IPv4 default route whose last step fails returns an error, and the
  -- unreachable IPv6 default route that it added stays in the VPN table, where the kernel has IPv6
  -- and a failed RouteAdd keeps the routes of before.
  pub add_vpn_route-leaves_blackhole :
      (wg prefix : Prefix) {six : IpNet} (intf : Option ℕ) (w : World) {x : SysError}
      → validate_route net kernel wg prefix ≡ none
      → net.prefix_eq prefix (net.default_v4) ≡ true
      → net.to_ip_net (net.default_v6) ≡ some six
      → (add_unreachable_route net kernel (net.default_v6) netbird_vpn_table_id w).0 ≡ none
      → add_route net kernel prefix
          (vpn_hop net kernel intf)
          netbird_vpn_table_id
          (add_unreachable_route net kernel (net.default_v6) netbird_vpn_table_id w).1
        ≡ (some x, (add_unreachable_route net kernel (net.default_v6) netbird_vpn_table_id w).1)
      → ((add_vpn_route net kernel wg true prefix intf w).0 ≡ some (context "add route" x))
        × IsRouted net kernel laws
            (add_vpn_route net kernel wg true prefix intf w).1
            (blackhole six)
  add_vpn_route-leaves_blackhole wg prefix {six} intf w {x} ok d e6 a b =
      let w1 = (add_unreachable_route net kernel (net.default_v6) netbird_vpn_table_id w).1 in
      let run =
        add_vpn-run net kernel wg prefix intf w ok
        ∙ rw d (
            second_fails (add_unreachable_route net kernel (net.default_v6) netbird_vpn_table_id w)
              (λ v. add_route net kernel prefix (vpn_hop net kernel intf) netbird_vpn_table_id v) a
              b) in
      (
        ap (λ r. r.0) run,
        subst (λ v. IsRouted net kernel laws v (blackhole six)) (sym (ap (λ r. r.1) run))
            (rw d at (blackhole-added prefix w e6 d (rw d a))),
      )
    where
      second_fails :
          (r : Option SysError × World) (k : World → Option SysError × World)
          → r.0 ≡ none
          → k r.1 ≡ (some x, r.1)
          → then_do net kernel r "add blackhole"
              (λ v. then_do net kernel (k v) "add route" (finish net kernel))
            ≡ (some (context "add route" x), r.1)
      second_fails (none, v) k p q = rw q
      second_fails (some y, v) k p q = absurd (ground arith)

-- ===== src/SystemOps/Sample.antt =====
-- A small kernel on which the routing code can be run: the rules and the routes are sets, an
-- address is a number, and prefix 1 is 0.0.0.0/0, prefix 2 is ::/0.
use netbird_minimal.Common.{
  ℕ, ◌≡◌, refl, Bool, true, false, not, ◌||◌, ◌&&◌, Option, none, some, [], ◌==◌, arith,
  if◌then◌else◌,
}
use netbird_minimal.SystemOps.Types.{
  Family, v4, v6, eexist, esrch, enoent, other, Rule, NlRoute, is_op_err,
}
use netbird_minimal.SystemOps.Env.{Netip, Kernel}
use netbird_minimal.SystemOps.Rules.Installed.{RuleLaws}
use netbird_minimal.SystemOps.Routes.Effects.{RouteLaws}

abbrev pub sample_net : Netip
sample_net = record {
  Addr = ℕ;
  Prefix = ℕ;
  IpNet = ℕ;
  is_valid = λ a. not (a == 0);
  is_loopback = λ a. a == 127;
  is_link_local_unicast = λ a. a == 169;
  is_link_local_multicast = λ a. a == 224;
  is_interface_local_multicast = λ a. false;
  is_multicast = λ a. a == 224;
  is_unspecified = λ a. a == 1 || a == 2;
  is4 = λ a. not (a == 2);
  zone = λ a. "";
  no_addr = 0;
  prefix_addr = λ p. p;
  bits = λ p. if p == 1 || p == 2 then some 0 else some 24;
  prefix_eq = λ p q. p == q;
  prefix_contains = λ p a. p == a;
  to_ip_net = λ p. some p;
  zero_net = λ family. elim family [ v4 ↦ 1 | v6 ↦ 2 ];
  default_v4 = 1;
  default_v6 = 2;
}

abbrev pub opt_eq : Option ℕ → Option ℕ → Bool
opt_eq none none = true
opt_eq (some a) (some b) = a == b
opt_eq _ _ = false

abbrev pub family_eq : Family → Family → Bool
family_eq v4 v4 = true
family_eq v6 v6 = true
family_eq _ _ = false

abbrev pub rule_eq : Rule → Rule → Bool
rule_eq r s =
    r.table == s.table
    && r.mark == s.mark
    && family_eq r.family s.family
    && r.priority == s.priority
    && opt_eq r.suppress_prefixlen s.suppress_prefixlen

abbrev pub route_eq : NlRoute ℕ ℕ → NlRoute ℕ ℕ → Bool
route_eq r s =
    r.table == s.table
    && r.route_type == s.route_type
    && opt_eq r.dst s.dst
    && r.link_index == s.link_index

opt_eq_self : (a : Option ℕ) → opt_eq a a ≡ true
opt_eq_self a = ground arith

family_eq_self : (a : Family) → family_eq a a ≡ true
family_eq_self a = ground arith

rule_eq_self : (r : Rule) → rule_eq r r ≡ true
rule_eq_self r = ground (arith, opt_eq_self r.suppress_prefixlen, family_eq_self r.family)

route_eq_self : (r : NlRoute ℕ ℕ) → route_eq r r ≡ true
route_eq_self r = ground (arith, opt_eq_self r.dst)

pub record World : Type 0 where
  pub rules : Rule → Bool
  pub routes : NlRoute ℕ ℕ → Bool

-- Interface 9 is down: a route through it is refused with another error.
abbrev pub sample_kernel : Kernel sample_net
sample_kernel = record {
  World = World;
  Sysctl = Unit {0};
  route_add = λ r w.
      if r.link_index == 9
      then (some (other 100), w)
      else (none, record w { routes = λ x. route_eq x r || w.routes x });
  route_del = λ r w.
      if w.routes r
      then (none, record w { routes = λ x. not (route_eq x r) && w.routes x })
      else (some esrch, w);
  route_list = λ family table w. some [];
  rule_add = λ r w.
      if w.rules r
      then (some eexist, w)
      else (none, record w { rules = λ x. rule_eq x r || w.rules x });
  rule_del = λ r w.
      if w.rules r
      then (none, record w { rules = λ x. not (rule_eq x r) && w.rules x })
      else (some enoent, w);
  link_by_name = λ s w. none;
  sysctl_setup = λ w. ((some tt, false), w);
  sysctl_cleanup = λ o w. (false, w);
  add_routing_table_name = λ w. w;
  setup_ref_counter = λ w. (none, w);
  cleanup_ref_counter = λ w. (none, w);
  generic_add_vpn_route = λ p i w. (none, w);
  generic_remove_vpn_route = λ p i w. (none, w);
}

pub sample_rule_laws : RuleLaws sample_kernel
unfolding is_op_err
sample_rule_laws = record {
  Has = λ w r. w.rules r ≡ true;
  supported = λ family. true;
  add_none = λ r w h. ground (arith, rule_eq_self r);
  add_eexist = λ r w h. ground arith;
  add_unsupported = λ r w n h o. absurd (ground arith);
  add_keeps = λ r s w h. ground (arith, rule_eq_self r);
  del_none = λ r w h. ground (arith, rule_eq_self r);
  del_enoent = λ r w h e. ground arith;
  del_unsupported = λ r w n h o. absurd (ground arith);
  del_keeps_out = λ r s w h. ground (arith, rule_eq_self r);
  table_name_keeps = λ s w h. h;
  sysctl_setup_keeps = λ s w h. h;
  sysctl_cleanup_keeps_out = λ o s w h. h;
}

pub sample_route_laws : RouteLaws sample_kernel
unfolding is_op_err
sample_route_laws = record {
  Has = λ w r. w.routes r ≡ true;
  supported = λ family. true;
  zero_addr_invalid = refl;
  add_none = λ r w h. ground (arith, route_eq_self r);
  add_unsupported = λ r w n h o. absurd (ground arith);
  add_keeps = λ r s w h. ground (arith, route_eq_self r);
  del_none = λ r w h. ground (arith, route_eq_self r);
  del_missing = λ r w n h o e. ground arith;
  del_unsupported = λ r w n h o. absurd (ground arith);
  del_keeps_out = λ r s w h. ground (arith, route_eq_self r);
}

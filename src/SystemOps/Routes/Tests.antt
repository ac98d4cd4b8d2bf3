-- ===== src/SystemOps/Routes/Tests.antt =====
-- The routes of the VPN on the sample kernel.
use netbird_minimal.Common.{◌≡◌, refl, true, false, some}
use netbird_minimal.SystemOps.Types.{other, netlink, context, is_op_err}
use netbird_minimal.SystemOps.Routes.{
  is_forbidden, validate_route, add_vpn_route, remove_vpn_route, add_route, remove_route,
  add_unreachable_route, remove_unreachable_route, add_next_hop, get_address_family, add_answer,
  del_answer, del_unreachable_answer,
}
use netbird_minimal.SystemOps.Routes.Effects.{IsRouted, IsUnrouted, vpn_route}
use netbird_minimal.SystemOps.Routes.Vpn.{
  add_vpn_route-routed, remove_vpn_route-IsUnrouted, add_vpn_route-leaves_blackhole, blackhole,
}
use netbird_minimal.SystemOps.Sample.{World, sample_net, sample_kernel, sample_route_laws}

abbrev start : World
start = record { rules = λ r. false; routes = λ r. false }

abbrev routed : World
routed = (add_vpn_route sample_net sample_kernel 5 true 1 (some 3) start).1

add_vpn_route-routed_example :
    IsRouted sample_net sample_kernel sample_route_laws routed
      (vpn_route sample_net sample_kernel sample_route_laws 1 1 (some 3))
    × (true ≡ true
        → IsRouted sample_net sample_kernel sample_route_laws routed
            (blackhole sample_net sample_kernel sample_route_laws 2))
unfolding add_vpn_route validate_route is_forbidden add_route add_unreachable_route add_next_hop
    add_answer get_address_family
add_vpn_route-routed_example =
    add_vpn_route-routed sample_net sample_kernel sample_route_laws 5 1 (some 3) start refl refl
      refl

remove_vpn_route-IsUnrouted_example :
    IsUnrouted sample_net sample_kernel sample_route_laws
      (remove_vpn_route sample_net sample_kernel 5 true 1 (some 3) routed).1
      (vpn_route sample_net sample_kernel sample_route_laws 1 1 (some 3))
    × (true ≡ true
        → IsUnrouted sample_net sample_kernel sample_route_laws
            (remove_vpn_route sample_net sample_kernel 5 true 1 (some 3) routed).1
            (blackhole sample_net sample_kernel sample_route_laws 2))
unfolding add_vpn_route remove_vpn_route validate_route is_forbidden add_route remove_route
    add_unreachable_route remove_unreachable_route add_next_hop add_answer del_answer
    del_unreachable_answer get_address_family
remove_vpn_route-IsUnrouted_example =
    remove_vpn_route-IsUnrouted sample_net sample_kernel sample_route_laws 5 1 (some 3) routed refl
      refl refl

-- Interface 9 is down.
add_vpn_route-leaves_blackhole_example :
    ((add_vpn_route sample_net sample_kernel 5 true 1 (some 9) start).0
      ≡ some (context "add route" (context "netlink add route" (netlink (other 100)))))
    × IsRouted sample_net sample_kernel sample_route_laws
        (add_vpn_route sample_net sample_kernel 5 true 1 (some 9) start).1
        (blackhole sample_net sample_kernel sample_route_laws 2)
unfolding add_vpn_route validate_route is_forbidden add_route add_unreachable_route add_next_hop
    add_answer get_address_family is_op_err
add_vpn_route-leaves_blackhole_example =
    add_vpn_route-leaves_blackhole sample_net sample_kernel sample_route_laws 5 1 (some 9) start
      refl refl refl refl refl

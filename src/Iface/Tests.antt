-- ===== src/Iface/Tests.antt =====
-- An interface that is gone a quarter of a second after its device was closed.
use netbird_minimal.Common.{[], ℕ, ◌+◌, ◌≡◌, refl, false, none, some, arith, if◌then◌else◌, leb}
use netbird_minimal.Common.Outcome.{err}
use netbird_minimal.Iface.{
  found, missing, IfaceEnv, WgIface, iface_not_found, wait_until_removed, remove_peer, close,
}
use netbird_minimal.Iface.Closing.{CloseLaws, Ended, close-Ended}

-- The world is the clock.
abbrev leaving : IfaceEnv
leaving = record {
  World = ℕ;
  Configurer = Unit {0};
  Prefix = ℕ;
  PeerOptions = Unit {0};
  Stats = ℕ;
  create_tun = λ w. (some tt, w);
  update_peer_of = λ c k ips o w. (false, w);
  remove_endpoint_address_of = λ c k w. (false, w);
  remove_peer_of = λ c k w. (false, w);
  add_allowed_ip_of = λ c k ip w. (false, w);
  remove_allowed_ip_of = λ c k ip w. (false, w);
  stats_of = λ c w. some w;
  free_proxy = λ w. (false, w);
  close_tun = λ w. (false, w);
  interface_by_name = λ w. (if leb 250 w then missing else found, w);
  Link = Unit {0};
  link_by_name = λ w. (some tt, w);
  link_del = λ l w. (false, w + 1000);
  clock = λ w. w;
  sleep = λ t w. w + t;
}

leaving_laws : CloseLaws leaving
leaving_laws = record { sleep_lem = λ t w. omega arith; lookup_clock = λ w. omega arith }

close-Ended_example : Ended leaving leaving_laws [] (close leaving 0)
close-Ended_example = close-Ended leaving leaving_laws 0

-- Three rounds wait.
waits : wait_until_removed leaving 4 0 0 ≡ (some false, 300)
unfolding wait_until_removed
waits = refl

-- Before Create there is no configurer.
abbrev fresh : WgIface leaving
fresh = record { configurer = none; world = 0 }

not_created : remove_peer leaving "a" fresh ≡ (err iface_not_found, fresh)
unfolding remove_peer
not_created = refl

-- ===== src/Iface.antt =====
-- The WireGuard interface: WGIface of go/iface/iface.go, with Create of go/iface/iface_create.go and
-- Destroy of go/iface/iface_destroy_linux.go. Its mutex makes the methods run one after the other.
pub mod Closing
mod Tests
use netbird_minimal.Common.{
  ℕ, zero, suc, ◌+◌, String, Bool, true, false, not, Option, none, some, List, [], ◌∷◌, ◌++◌,
  if◌then◌else◌, ltb, leb,
}
use netbird_minimal.Common.Outcome.{Outcome, ok, err}

abbrev pub min_mtu : ℕ
min_mtu = 576

abbrev pub max_mtu : ℕ
max_mtu = 8192

-- ValidateMTU: whether it returns nil
unfoldable pub validate_mtu : ℕ → Bool
validate_mtu mtu = if ltb mtu min_mtu then false else (if ltb max_mtu mtu then false else true)

-- net.InterfaceByName: an interface, nil without an error, a net.OpError, or another error
pub data Lookup : Type 0 where
  found missing op_error lookup_failed : Lookup

-- The device, the configurer that it creates, netlink and the clock in milliseconds. A Boolean beside
-- a world says that the call failed.
pub record IfaceEnv : Type 1 where
  pub World : Type 0
  pub Configurer : Type 0
  pub Prefix : Type 0
  -- what UpdatePeer takes besides the key and the networks
  pub PeerOptions : Type 0
  pub Stats : Type 0
  pub create_tun : World → Option Configurer × World
  pub update_peer_of : Configurer → String → List Prefix → PeerOptions → World → Bool × World
  pub remove_endpoint_address_of : Configurer → String → World → Bool × World
  pub remove_peer_of : Configurer → String → World → Bool × World
  pub add_allowed_ip_of : Configurer → String → Prefix → World → Bool × World
  pub remove_allowed_ip_of : Configurer → String → Prefix → World → Bool × World
  pub stats_of : Configurer → World → Option Stats
  pub free_proxy : World → Bool × World
  pub close_tun : World → Bool × World
  pub interface_by_name : World → Lookup × World
  pub Link : Type 0
  pub link_by_name : World → Option Link × World
  pub link_del : Link → World → Bool × World
  pub clock : World → ℕ
  pub sleep : ℕ → World → World

pub data IfaceError : Type 0 where
  iface_not_found create_failed configurer_failed : IfaceError

pub data CloseError : Type 0 where
  free_failed tun_close_failed not_removed : CloseError

module _ (env : IfaceEnv) where
  open env use {World, Configurer, Prefix, PeerOptions, Stats}

  pub record WgIface : Type 0 where
    pub configurer : Option Configurer
    pub world : World

  -- the error of a call
  abbrev result_of : IfaceError → Bool → Outcome IfaceError (Unit {0})
  result_of e failed = if failed then err e else ok tt

  -- Create
  unfoldable pub create : WgIface → Outcome IfaceError (Unit {0}) × WgIface
  create s =
      let (o, w) = env.create_tun s.world in
      elim o [
        | none ↦ (err create_failed, record s { world = w })
        | some c ↦ (ok tt, record { configurer = some c; world = w })
      ]

  -- a call of the configurer, which may be nil
  unfoldable pub with_configurer :
      (Configurer → World → Bool × World) → WgIface → Outcome IfaceError (Unit {0}) × WgIface
  with_configurer f s = elim s.configurer [
    | none ↦ (err iface_not_found, s)
    | some c ↦
        let (failed, w) = f c s.world in
        (result_of configurer_failed failed, record s { world = w })
  ]

  -- UpdatePeer
  unfoldable pub update_peer :
      String → List Prefix → PeerOptions → WgIface → Outcome IfaceError (Unit {0}) × WgIface
  unfolding with_configurer
  update_peer key ips o = with_configurer (λ c. env.update_peer_of c key ips o)

  -- RemoveEndpointAddress
  unfoldable pub remove_endpoint_address :
      String → WgIface → Outcome IfaceError (Unit {0}) × WgIface
  unfolding with_configurer
  remove_endpoint_address key = with_configurer (λ c. env.remove_endpoint_address_of c key)

  -- RemovePeer
  unfoldable pub remove_peer : String → WgIface → Outcome IfaceError (Unit {0}) × WgIface
  unfolding with_configurer
  remove_peer key = with_configurer (λ c. env.remove_peer_of c key)

  -- AddAllowedIP
  unfoldable pub add_allowed_ip :
      String → Prefix → WgIface → Outcome IfaceError (Unit {0}) × WgIface
  unfolding with_configurer
  add_allowed_ip key ip = with_configurer (λ c. env.add_allowed_ip_of c key ip)

  -- RemoveAllowedIP
  unfoldable pub remove_allowed_ip :
      String → Prefix → WgIface → Outcome IfaceError (Unit {0}) × WgIface
  unfolding with_configurer
  remove_allowed_ip key ip = with_configurer (λ c. env.remove_allowed_ip_of c key ip)

  -- GetStats and FullStats, each over its call of the configurer
  unfoldable pub get_stats : WgIface → Outcome IfaceError Stats
  get_stats s = elim s.configurer [
    | none ↦ err iface_not_found
    | some c ↦ elim (env.stats_of c s.world) [ none ↦ err configurer_failed | some m ↦ ok m ]
  ]

  -- the loop takes the interface as removed
  abbrev pub is_missing : Lookup → Bool
  is_missing missing = true
  is_missing op_error = true
  is_missing _ = false

  -- the loop of waitUntilRemoved, on fuel, for the time at which the timer was made: whether the timer
  -- ended it, `none` out of fuel
  unfoldable pub wait_until_removed : ℕ → ℕ → World → Option Bool × World
  wait_until_removed zero start w = (none, w)
  wait_until_removed (suc n) start w =
      let (l, w1) = env.interface_by_name w in
      let rest = wait_until_removed n start (env.sleep 100 w1) in
      if is_missing l
      then (some false, w1)
      else (if leb (start + 5000) (env.clock w1) then (some true, w1) else rest)

  -- Destroy
  unfoldable pub destroy : World → Bool × World
  destroy w =
      let (o, w1) = env.link_by_name w in
      elim o [ none ↦ (true, w1) | some link ↦ env.link_del link w1 ]

  -- the errors of Close up to the wait
  abbrev pub errors_of : Bool → Bool → List CloseError
  errors_of freed closed =
      (if freed then free_failed ∷ [] else []) ++ (if closed then tun_close_failed ∷ [] else [])

  -- Close behind the wait, with the errors until then
  unfoldable pub after_wait :
      List CloseError → Option Bool × World → Option (List CloseError) × World
  after_wait es (none, w) = (none, w)
  after_wait es (some timed_out, w) =
      if not timed_out
      then (some es, w)
      else (some (es ++ (if (destroy w).0 then not_removed ∷ [] else [])), (destroy w).1)

  -- Close, `none` out of fuel
  unfoldable pub close : World → Option (List CloseError) × World
  close w =
      let (freed, w1) = env.free_proxy w in
      let (closed, w2) = env.close_tun w1 in
      after_wait (errors_of freed closed) (wait_until_removed 51 (env.clock w2) w2)

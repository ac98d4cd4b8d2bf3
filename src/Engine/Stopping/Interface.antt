-- ===== src/Engine/Stopping/Interface.antt =====
-- The methods that other goroutines ask for the WireGuard interface: Address, GetWgAddr, GetNet and
-- RenewTun of go/internal/engine.go. Each reads e.wgInterface once or twice; Stop may come between.
use netbird_minimal.Common.{
  ℕ, ◌≡◌, ◌≢◌, Bool, true, false, not, Option, none, some, arith, if◌then◌else◌,
}
use netbird_minimal.Common.Outcome.{Outcome, ok, err, panic}
use netbird_minimal.Engine.Netip.{Netip}
use netbird_minimal.Engine.PeerEnv.{PeerEnv, PeerLaws}
use netbird_minimal.Engine.Peers.{PeerConfig}
use netbird_minimal.Engine.SyncEnv.{SyncEnv}
use netbird_minimal.Engine.SyncState.{Engine}
use netbird_minimal.Engine.Stopping.{StopEnv, Running, stop}
use netbird_minimal.Engine.Stopping.Released.{StopLaws, stop-IsReleased}

pub data InterfaceError : Type 0 where
  not_initialized no_netstack renew_failed : InterfaceError

module _ {net : Netip} {peers : PeerEnv net} (env : SyncEnv peers) where
  -- Address of an interface with this IP, for the engine at its read under the mutex and at its read
  -- behind it
  unfoldable pub address : env.Addr → Engine env → Engine env → Outcome InterfaceError env.Addr
  address ip e later =
      if not e.wg_interface
      then err not_initialized
      else (if later.wg_interface then ok ip else panic)

  -- GetWgAddr, which takes no mutex: `none` for the zero address
  unfoldable pub get_wg_addr :
      env.Addr → Engine env → Engine env → Outcome InterfaceError (Option env.Addr)
  get_wg_addr ip e later =
      if not e.wg_interface then ok none else (if later.wg_interface then ok (some ip) else panic)

  -- GetNet of an interface with this netstack or none
  unfoldable pub get_net : {Net : Type 0} → Option Net → Engine env → Outcome InterfaceError Net
  get_net nsnet e =
      if not e.wg_interface
      then err not_initialized
      else (elim nsnet [ none ↦ err no_netstack | some n ↦ ok n ])

  -- RenewTun with the result of that of the interface
  unfoldable pub renew_tun :
      (ℕ → peers.World → Bool × peers.World)
      → ℕ
      → Engine env
      → Outcome InterfaceError (Unit {0}) × Engine env
  renew_tun renew fd e =
      if not e.wg_interface
      then (err not_initialized, e)
      else (let (failed, w) = renew fd e.world in
          let e1 : Engine env = record e { world = w } in
          (if failed then err renew_failed else ok tt, e1))

  module _ (peer_laws : PeerLaws peers) (cfg : PeerConfig) (calls : StopEnv peers.World)
      (laws : StopLaws peers calls) where
    -- Address does not panic where nothing comes between its two reads. Where a Stop of an engine with a
    -- connection manager comes between them, it panics if the interface was there, and so does
    -- GetWgAddr.
    pub address-stop :
        (s : Running env cfg calls) (ip : env.Addr)
        → s.engine.conn_mgr ≡ true
        → (address ip s.engine s.engine ≢ panic)
          × (s.engine.wg_interface ≡ true
              → (address ip s.engine (stop env cfg calls s).1.engine ≡ panic)
                × (get_wg_addr ip s.engine (stop env cfg calls s).1.engine ≡ panic))
    unfolding address get_wg_addr
    address-stop s ip h =
        let gone = (stop-IsReleased env peer_laws cfg calls laws s h).1.interface in
        (
          λ q. quiet s.engine.wg_interface q,
          λ there. (ground (arith, gone, there), ground (arith, gone, there)),
        )
      where
        quiet :
            (b : Bool)
            → let out : Outcome InterfaceError env.Addr =
                if not b then err not_initialized else (if b then ok ip else panic) in
              out ≢ panic
        quiet true q = ground (arith, q)
        quiet false q = ground (arith, q)

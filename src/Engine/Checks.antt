-- ===== src/Engine/Checks.antt =====
-- Posture checks: isChecksEqual and updateChecksIfNew of go/internal/engine.go.
pub mod Same
use netbird_minimal.Common.{
  String, Bool, true, false, ◌&&◌, List, [], ◌∷◌, map, if◌then◌else◌, str_eq, join, sort_strings,
}
use netbird_minimal.Common.Outcome.{Outcome, ok, err, panic}
use netbird_minimal.Engine.Netip.{Netip}
use netbird_minimal.Engine.PeerEnv.{PeerEnv}
use netbird_minimal.Engine.Messages.{Check}
use netbird_minimal.Engine.SyncEnv.{SyncEnv}
use netbird_minimal.Engine.SyncState.{SyncError, Engine, Method, sync_meta_failed}

-- slices.Equal
unfoldable pub slices_equal : List String → List String → Bool
slices_equal [] [] = true
slices_equal (x ∷ xs) (y ∷ ys) = str_eq x y && slices_equal xs ys
slices_equal _ _ = false

-- the function `normalize` of isChecksEqual
unfoldable pub normalize : List Check → List String
normalize checks = sort_strings (map (λ c. join "|" (sort_strings c.files)) checks)

-- isChecksEqual
unfoldable pub is_checks_equal : List Check → List Check → Bool
unfolding slices_equal normalize
is_checks_equal checks1 checks2 = slices_equal (normalize checks1) (normalize checks2)

module _ {net : Netip} {peers : PeerEnv net} (env : SyncEnv peers) where
  -- updateChecksIfNew: the checks are kept also where the management service is not reached
  unfoldable pub update_checks_if_new : List Check → Method env
  update_checks_if_new checks e =
      if is_checks_equal e.checks checks
      then (ok tt, e)
      else (let (failed, w) = env.sync_meta checks e.world in
          (if failed then err sync_meta_failed else ok tt, record e { checks = checks; world = w }))

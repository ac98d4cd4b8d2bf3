-- ===== src/Engine/Servers/Whole.antt =====
-- updateSTUNs and updateTURNs of go/internal/engine.go take all servers or none.
use netbird_minimal.Common.{
  String, ◌≡◌, ◌≢◌, ◌↔◌, refl, ap, ◌∙◌, true, false, some, List, [], ◌∷◌, map, arith, is_empty,
  Option-cases, inl, inr,
}
use netbird_minimal.Common.Outcome.{ok}
use netbird_minimal.Engine.Netip.{Netip}
use netbird_minimal.Engine.PeerEnv.{PeerEnv}
use netbird_minimal.Engine.SyncEnv.{SyncEnv}
use netbird_minimal.Engine.SyncState.{Engine}
use netbird_minimal.Engine.Servers.{parse_stuns, update_stuns}

module _ {net : Netip} {peers : PeerEnv net} (env : SyncEnv peers) where
  open env use {Uri, parse_uri, set_credentials}

  parse_stuns-some :
      (ss : List String) (us : List Uri)
      → (parse_stuns env ss ≡ some us) ↔ (map parse_uri ss ≡ map some us)
  unfolding parse_stuns
  parse_stuns-some [] [] = (λ h. refl, λ h. refl)
  parse_stuns-some [] (u ∷ us) = (λ h. absurd (ground arith), λ h. absurd (ground arith))
  parse_stuns-some (s ∷ ss) [] = (λ h. absurd (ground arith), λ h. absurd (ground arith))
  parse_stuns-some (s ∷ ss) (u ∷ us) = (
    λ h. ground (arith, (parse_stuns-some ss us).0),
    λ h. ground (arith, (parse_stuns-some ss us).1),
  )

  -- A call of updateSTUNs with servers stores a list exactly if it is what the servers parse to,
  -- one by one in their order; without servers, or where it does not return nil, the engine is left
  -- as it is.
  pub update_stuns_whole :
      (ss : List String) (us : List Uri) (e : Engine env)
      → (is_empty ss ≡ false
          → (update_stuns env ss e ≡ (ok tt, record e { stuns = us }))
            ↔ (map parse_uri ss ≡ map some us))
        × (is_empty ss ≡ true → update_stuns env ss e ≡ (ok tt, e))
        × ((update_stuns env ss e).0 ≢ ok tt → (update_stuns env ss e).1 ≡ e)
  unfolding update_stuns
  update_stuns_whole ss us e = (
    λ h. (
      λ r. (parse_stuns-some ss us).0 (stored h r),
      λ p. ground (arith, (parse_stuns-some ss us).1 p),
    ),
    λ h. ground arith,
    λ h. ground arith,
  )
    where
      stored :
          is_empty ss ≡ false
          → update_stuns env ss e ≡ (ok tt, record e { stuns = us })
          → parse_stuns env ss ≡ some us
      stored h r = elim (Option-cases (parse_stuns env ss)) [
        | inl n ↦ absurd (ground arith)
        | inr (vs, q) ↦ q ∙ ap some (ground arith)
      ]

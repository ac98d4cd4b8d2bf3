-- ===== src/RouteManager/Classify/Tests.antt =====
-- Classifying two routes for the peer "me".
use netbird_minimal.Common.{◌≡◌, none, [], ◌∷◌, if◌then◌else◌}
use netbird_minimal.Common.Dict.{lookup}
use netbird_minimal.RouteManager.Classify.{classify_routes}
use netbird_minimal.RouteManager.Classify.Exact.{
  is_own, last_own, members, grown, classify_routes_exact,
}
use netbird_minimal.RouteManager.Sample.{sample_env, route_a, route_b}

classify_routes_exact_example :
    (lookup "10.0.0.0/8" (classify_routes sample_env "me" (route_a ∷ route_b ∷ [])).0
      ≡ last_own sample_env "me" "10.0.0.0/8" (route_a ∷ route_b ∷ []) none)
    × (lookup "10.0.0.0/8" (classify_routes sample_env "me" (route_a ∷ route_b ∷ [])).1 ≡ (
        if is_own sample_env "me" "10.0.0.0/8" (route_a ∷ route_b ∷ [])
        then none
        else grown sample_env "me" none
            (members sample_env "me" "10.0.0.0/8" (route_a ∷ route_b ∷ []))))
classify_routes_exact_example =
    classify_routes_exact sample_env "me" (route_a ∷ route_b ∷ []) "10.0.0.0/8"

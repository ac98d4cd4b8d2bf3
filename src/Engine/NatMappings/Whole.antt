-- ===== src/Engine/NatMappings/Whole.antt =====
-- parseNATExternalIPMappings of go/internal/engine.go takes all mappings or none.
use netbird_minimal.Common.{
  ◌<◌, String, ◌≡◌, refl, Option, none, some, List, [], ◌∷◌, arith, length, Option-cases, inl, inr,
}
use netbird_minimal.Engine.NatMappings.{NatEnv, map_one, map_until, parse_nat_external_ip_mappings}

-- The results of a partial function on all elements, or `none`.
unfoldable pub traverse : (String → Option String) → List String → Option (List String)
traverse f [] = some []
traverse f (x ∷ xs) =
    let rest = traverse f xs in
    elim (f x) [ none ↦ none | some y ↦ elim rest [ none ↦ none | some ys ↦ some (y ∷ ys) ] ]

module _ (env : NatEnv) (blacklist : List String) where
  until-short :
      (mappings : List String)
      → traverse (map_one env blacklist) mappings ≡ none
      → length (map_until env blacklist mappings) < length mappings
  unfolding traverse map_until
  until-short [] h = ground arith
  until-short (m ∷ ms) h =
      ground (arith, λ (e : traverse (map_one env blacklist) ms ≡ none). until-short ms e)

  until-whole :
      (mappings : List String) {ys : List String}
      → traverse (map_one env blacklist) mappings ≡ some ys
      → (map_until env blacklist mappings ≡ ys) × (length ys ≡ length mappings)
  unfolding traverse map_until
  until-whole [] h = (ground arith, ground arith)
  until-whole (m ∷ ms) {ys} h =
      tail (traverse (map_one env blacklist) ms) refl (λ zs e. until-whole ms e)
    where
      tail :
          (o : Option (List String))
          → traverse (map_one env blacklist) ms ≡ o
          → ((zs : List String)
              → traverse (map_one env blacklist) ms ≡ some zs
              → (map_until env blacklist ms ≡ zs) × (length zs ≡ length ms))
          → (map_until env blacklist (m ∷ ms) ≡ ys) × (length ys ≡ length (m ∷ ms))
      tail none e ih = (ground arith, ground arith)
      tail (some zs) e ih = (ground (arith, ih zs e), ground (arith, ih zs e))

  -- The mappings are those of the configuration, each translated, or there is none where one of
  -- them cannot be translated.
  pub parse_nat_external_ip_mappings_whole :
      (mappings : List String)
      → parse_nat_external_ip_mappings env blacklist mappings
        ≡ elim (traverse (map_one env blacklist) mappings) [ none ↦ [] | some ys ↦ ys ]
  unfolding parse_nat_external_ip_mappings
  parse_nat_external_ip_mappings_whole mappings =
      elim (Option-cases (traverse (map_one env blacklist) mappings)) [
        | inl e ↦ ground (arith, e, until-short mappings e)
        | inr (ys, e) ↦ ground (arith, e, until-whole mappings e)
      ]

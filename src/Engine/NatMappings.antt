-- ===== src/Engine/NatMappings.antt =====
-- The external IP mappings of the configuration: parseNATExternalIPMappings of
-- go/internal/engine.go.
pub mod Whole
mod Tests
use netbird_minimal.Common.{
  ℕ, String, Bool, true, false, not, Option, none, some, List, [], ◌∷◌, ◌==◌, if◌then◌else◌, length,
  contains,
}

-- strings.Split by "/", whose result has a first text, package net, and the interfaces
pub record NatEnv : Type 1 where
  pub Ip : Type 0
  pub split : String → String × List String
  pub parse_ip : String → Option Ip
  pub ip_string : Ip → String
  -- a ++ "/" ++ b
  pub join_slash : String → String → String
  -- findIPFromInterfaceName, `none` for an error
  pub find_ip_from_interface_name : String → Option Ip

module _ (env : NatEnv) where
  open env use {Ip}

  -- the internal address: `none` where the loop breaks, `some none` where there is none
  unfoldable pub internal_ip : List String → List String → Option (Option Ip)
  internal_ip blacklist [] = some none
  internal_ip blacklist (internal ∷ []) = elim (env.parse_ip internal) [
    | some ip ↦ some (some ip)
    | none ↦
        if contains internal blacklist
        then none
        else elim (env.find_ip_from_interface_name internal) [
          | none ↦ none
          | some ip ↦ some (some ip)
        ]
  ]
  internal_ip blacklist (a ∷ b ∷ more) = none

  -- the body of the loop: `none` where the loop breaks
  unfoldable pub map_one : List String → String → Option String
  map_one blacklist mapping =
      let (external, rest) = env.split mapping in
      elim (internal_ip blacklist rest) [
        | none ↦ none
        | some internal ↦ elim (env.parse_ip external) [
          | none ↦ none
          | some ip ↦ some (elim internal [
            | none ↦ env.ip_string ip
            | some i ↦ env.join_slash (env.ip_string ip) (env.ip_string i)
          ])
        ]
      ]

  -- the loop, up to the first break
  unfoldable pub map_until : List String → List String → List String
  map_until blacklist [] = []
  map_until blacklist (m ∷ ms) =
      let rest = map_until blacklist ms in
      elim (map_one blacklist m) [ none ↦ [] | some x ↦ x ∷ rest ]

  -- parseNATExternalIPMappings; the empty list is nil
  unfoldable pub parse_nat_external_ip_mappings : List String → List String → List String
  parse_nat_external_ip_mappings blacklist mappings =
      let mapped = map_until blacklist mappings in
      if not (length mapped == length mappings) then [] else mapped

-- ===== src/Engine/NetIpLists.antt =====
-- compareNetIPLists of go/internal/engine.go: the multisets of two lists of networks, one parsed
-- and one still text, compared by a map of frequencies.
pub mod Laws
mod Tests
use netbird_minimal.Common.{
  ℕ, suc, ◌+◌, ◌-◌, String, Bool, true, false, not, ◌&&◌, Option, none, some, List, [], ◌∷◌, ◌==◌,
  if◌then◌else◌, length,
}
use netbird_minimal.Common.Dict.{Dict, lookup, insert}
use netbird_minimal.Engine.Netip.{Netip}

-- `freq[k]`, which is 0 for a missing key
pub freq_of : Dict ℕ → String → ℕ
freq_of freq k = elim (lookup k freq) [ none ↦ 0 | some n ↦ n ]

-- the loop over `freq`: every count is 0
pub all_zero : Dict ℕ → Bool
all_zero [] = true
all_zero ((k, n) ∷ freq) = n == 0 && all_zero freq

module _ (net : Netip) where
  open net use {Prefix, parse_prefix, prefix_string}

  -- `for _, p := range list1 { freq[p.String()]++ }`
  pub tally : List Prefix → Dict ℕ → Dict ℕ
  unfolding freq_of
  tally [] freq = freq
  tally (p ∷ ps) freq =
      tally ps (insert (prefix_string p) (suc (freq_of freq (prefix_string p))) freq)

  -- the loop over `list2`: `none` is its `return false`
  pub spend : List String → Dict ℕ → Option (Dict ℕ)
  spend [] freq = some freq
  spend (s ∷ ss) freq = elim (parse_prefix s) [
    | none ↦ none
    | some p ↦ elim (freq_of freq (prefix_string p) == 0) [
      | true ↦ none
      | false ↦ spend ss (insert (prefix_string p) (freq_of freq (prefix_string p) - 1) freq)
    ]
  ]

  unfoldable pub compare_net_ip_lists : List Prefix → List String → Bool
  unfolding tally spend all_zero freq_of
  compare_net_ip_lists list1 list2 =
      if not (length list1 == length list2)
      then false
      else elim (spend list2 (tally list1 [])) [ none ↦ false | some freq ↦ all_zero freq ]

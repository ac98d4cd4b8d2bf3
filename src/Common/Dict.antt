-- ===== src/Common/Dict.antt =====
-- A Go map keyed by texts, as an association list. Its order stands for the order of a `range`.
use Prim.Native.String.{String}
use mathlib.Core.Path.{◌≡◌, refl, ◌∙◌}
use mathlib.Core.Bool.{Bool, true, false}
use mathlib.Core.Option.{Option, none, some}
use mathlib.Core.List.{List, [], ◌∷◌}
use native.Mathlib.Omega.{arith}
use netbird_minimal.Common.Tests.{if◌then◌else◌, is_some, str_eq, str_eq_iff}
use netbird_minimal.Common.Lists.{contains, Distinct}

abbrev pub Dict {ℓ} : Type ℓ → Type ℓ
Dict V = List (String × V)

module _ {ℓ} {V : Type ℓ} where
  -- `m[k]` with its `ok`
  unfoldable pub lookup : String → Dict V → Option V
  lookup k [] = none
  lookup k ((j, v) ∷ m) = if str_eq j k then some v else lookup k m

  -- `m[k] = v`
  unfoldable pub insert : String → V → Dict V → Dict V
  insert k v [] = (k, v) ∷ []
  insert k v ((j, w) ∷ m) = if str_eq j k then (j, v) ∷ m else (j, w) ∷ insert k v m

  -- `delete(m, k)`
  unfoldable pub erase : String → Dict V → Dict V
  erase k [] = []
  erase k ((j, w) ∷ m) = let rest = erase k m in if str_eq j k then rest else (j, w) ∷ rest

  abbrev pub keys : Dict V → List String
  keys [] = []
  keys ((k, v) ∷ m) = k ∷ keys m

  pub lookup-insert :
      (k j : String) (v : V) (m : Dict V)
      → lookup j (insert k v m) ≡ (if str_eq k j then some v else lookup j m)
  unfolding lookup insert
  lookup-insert k j v [] = refl
  lookup-insert k j v ((i, w) ∷ m) =
      ground (arith, str_eq_iff k j, str_eq_iff i k, str_eq_iff i j, lookup-insert k j v m)

  pub lookup-erase :
      (k j : String) (m : Dict V) → lookup j (erase k m) ≡ (if str_eq k j then none else lookup j m)
  unfolding lookup erase
  lookup-erase k j [] = ground arith
  lookup-erase k j ((i, w) ∷ m) =
      ground (arith, str_eq_iff k j, str_eq_iff i k, str_eq_iff i j, lookup-erase k j m)

  pub contains-keys : (k : String) (m : Dict V) → contains k (keys m) ≡ is_some (lookup k m)
  unfolding contains lookup
  contains-keys k [] = refl
  contains-keys k ((j, v) ∷ m) = ground (arith, contains-keys k m)

  -- A map has no key twice.
  abbrev pub IsMap : Dict V → Type 0
  IsMap m = Distinct (keys m)

  pub insert-IsMap : (k : String) (v : V) (m : Dict V) → IsMap m → IsMap (insert k v m)
  unfolding insert contains
  insert-IsMap k v [] h = (refl, tt)
  insert-IsMap k v ((j, w) ∷ m) h = split (str_eq j k) refl (insert-IsMap k v m h.1)
    where
      split :
          (b : Bool)
          → str_eq j k ≡ b
          → IsMap (insert k v m)
          → IsMap (if b then (j, v) ∷ m else (j, w) ∷ insert k v m)
      split true e r = h
      split false e r = (
        contains-keys j (insert k v m)
            ∙ ground (
              arith,
              e,
              lookup-insert k j v m,
              contains-keys j m,
              h.0,
              str_eq_iff k j,
              str_eq_iff j k,
            ),
        r,
      )

  pub erase-IsMap : (k : String) (m : Dict V) → IsMap m → IsMap (erase k m)
  unfolding erase
  erase-IsMap k [] h = tt
  erase-IsMap k ((j, w) ∷ m) h = split (str_eq j k) (erase-IsMap k m h.1)
    where
      split :
          (b : Bool)
          → IsMap (erase k m)
          → IsMap (let rest = erase k m in if b then rest else (j, w) ∷ rest)
      split true r = r
      split false r = (
        contains-keys j (erase k m) ∙ ground (arith, lookup-erase k j m, contains-keys j m, h.0),
        r,
      )

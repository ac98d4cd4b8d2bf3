-- ===== src/Common/Texts.antt =====
-- Of the packages strings, sort and slices: joining and sorting texts.
use Prim.Native.String.{String, ◌++◌ as append, compare}
use Prim.Native.Nat.{Ordering}
use mathlib.Core.Bool.{Bool, true, false}
use mathlib.Core.List.{List, [], ◌∷◌}
use netbird_minimal.Common.Tests.{if◌then◌else◌}

-- `a <= b` on texts
abbrev pub text_le : String → String → Bool
text_le a b = elim (compare a b) [ Ordering.gt ↦ false | _ ↦ true ]

-- one text put into sorted ones
unfoldable pub insert_sorted : String → List String → List String
insert_sorted a [] = a ∷ []
insert_sorted a (b ∷ rest) =
    let later = insert_sorted a rest in if text_le a b then a ∷ (b ∷ rest) else b ∷ later

-- sort.Strings
unfoldable pub sort_strings : List String → List String
unfolding insert_sorted
sort_strings [] = []
sort_strings (a ∷ rest) = insert_sorted a (sort_strings rest)

-- strings.Join
unfoldable pub join : String → List String → String
join sep [] = ""
join sep (a ∷ []) = a
join sep (a ∷ (b ∷ rest)) = append a (append sep (join sep (b ∷ rest)))

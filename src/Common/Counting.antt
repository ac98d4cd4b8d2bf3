-- ===== src/Common/Counting.antt =====
-- Lists of texts as multisets: how often each text is listed.
use netbird_minimal.Common.Tests.{if◌then◌else◌, str_eq, str_eq_iff, str_eq_self}
use netbird_minimal.Common.Lists.{length, count, contains}
use Prim.Native.Nat.{suc, ◌-◌, ◌<◌}
use Prim.Native.String.{String}
use mathlib.Core.Path.{◌≡◌, refl}
use mathlib.Core.Bool.{true}
use mathlib.Core.List.{List, [], ◌∷◌}
use native.Mathlib.Omega.{arith}

-- The two lists hold the same texts, each as often.
abbrev pub SameTexts : List String → List String → Type 0
SameTexts xs ys = (k : String) → count k xs ≡ count k ys

-- The list without the first copy of a text.
remove : String → List String → List String
remove k [] = []
remove k (x ∷ xs) = let rest = remove k xs in if str_eq x k then xs else x ∷ rest

count-remove :
    (k j : String) (xs : List String)
    → count j (remove k xs) ≡ (if str_eq k j then count j xs - 1 else count j xs)
unfolding remove count
count-remove k j [] = ground arith
count-remove k j (x ∷ xs) =
    ground (arith, str_eq_iff k j, str_eq_iff x k, str_eq_iff x j, count-remove k j xs)

length-remove :
    (k : String) (xs : List String) → 0 < count k xs → length xs ≡ suc (length (remove k xs))
unfolding remove count
length-remove k [] h = absurd (omega arith)
length-remove k (x ∷ xs) h = ground (arith, length-remove k xs)

count-cons :
    (k x : String) (xs : List String)
    → count k (x ∷ xs) ≡ (if str_eq x k then suc (count k xs) else count k xs)
unfolding count
count-cons k x xs = refl

SameTexts-tail :
    (x : String) (xs ys : List String) → SameTexts (x ∷ xs) ys → SameTexts xs (remove x ys)
SameTexts-tail x xs ys h k = ground (arith, count-remove x k ys, count-cons k x xs, h k)

pub SameTexts-length : (xs ys : List String) → SameTexts xs ys → length xs ≡ length ys
unfolding count
SameTexts-length [] [] h = refl
SameTexts-length [] (y ∷ ys) h = absurd (ground (arith, h y, str_eq_self y))
SameTexts-length (x ∷ xs) ys h = omega (
  arith,
  SameTexts-length xs (remove x ys) (SameTexts-tail x xs ys h),
  length-remove x ys (ground (arith, h x, str_eq_self x)),
)

pub contains-count : (k : String) (xs : List String) → contains k xs ≡ true → 0 < count k xs
unfolding contains count
contains-count k [] h = ground arith
contains-count k (x ∷ xs) h = ground (arith, contains-count k xs)

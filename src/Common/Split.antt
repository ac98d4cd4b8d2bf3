-- ===== src/Common/Split.antt =====
-- Of the package strings: cutting a text at a character, and trimming it.
use Prim.Native.Char.{Char, code}
use Prim.Native.Nat.{ℕ}
use Prim.Native.String.{String, ◌++◌ as append}
use text.Mathlib.TextLemmas.{nil-append, cons-append}
use mathlib.Core.Path.{◌≡◌, refl, ap, ◌∙◌}
use mathlib.Core.Bool.{Bool, true, false, not, ◌&&◌, ◌||◌}
use mathlib.Core.Option.{Option, none, some}
use mathlib.Core.List.{List, [], ◌∷◌}
use native.Mathlib.Omega.{arith}
use netbird_minimal.Common.Tests.{if◌then◌else◌, ◌==◌, leb}

-- `s == ""`
abbrev pub is_blank : String → Bool
is_blank String.[] = true
is_blank (String.◌∷◌ c s) = false

-- strings.SplitN(s, sep, 2), `none` where it gives one part
unfoldable pub split_once : ℕ → String → Option (String × String)
split_once sep String.[] = none
split_once sep (String.◌∷◌ c s) =
    let rest = split_once sep s in
    if code c == sep
    then some ("", s)
    else (elim rest [ none ↦ none | some p ↦ some (String.◌∷◌ c p.0, p.1) ])

-- strings.Split at one character
unfoldable pub split_on : ℕ → String → List String
split_on sep String.[] = "" ∷ []
split_on sep (String.◌∷◌ c s) =
    let rest = split_on sep s in
    if code c == sep
    then "" ∷ rest
    else (elim rest [ [] ↦ String.◌∷◌ c "" ∷ [] | l ∷ ls ↦ String.◌∷◌ c l ∷ ls ])

unfoldable pub trim_left : (ℕ → Bool) → String → String
trim_left p String.[] = ""
trim_left p (String.◌∷◌ c s) =
    let rest = trim_left p s in if p (code c) then rest else String.◌∷◌ c s

unfoldable pub trim_right : (ℕ → Bool) → String → String
trim_right p String.[] = ""
trim_right p (String.◌∷◌ c s) =
    let rest = trim_right p s in if p (code c) && is_blank rest then "" else String.◌∷◌ c rest

-- unicode.IsSpace
abbrev pub is_space : ℕ → Bool
is_space c =
    (leb 9 c && leb c 13)
    || c == 32
    || c == 133
    || c == 160
    || c == 5760
    || (leb 8192 c && leb c 8202)
    || c == 8232
    || c == 8233
    || c == 8239
    || c == 8287
    || c == 12288

-- strings.TrimSpace
abbrev pub trim_space : String → String
trim_space s = trim_right is_space (trim_left is_space s)

-- strings.Trim
abbrev pub trim : (ℕ → Bool) → String → String
trim p s = trim_right p (trim_left p s)

-- strings.HasPrefix and strings.TrimPrefix at once: what is behind the prefix
unfoldable pub behind_prefix : String → String → Option String
behind_prefix String.[] s = some s
behind_prefix (String.◌∷◌ d p) String.[] = none
behind_prefix (String.◌∷◌ d p) (String.◌∷◌ c s) =
    let rest = behind_prefix p s in if code c == code d then rest else none

-- No character of the text passes the test.
unfoldable pub lacks : (ℕ → Bool) → String → Bool
lacks p String.[] = true
lacks p (String.◌∷◌ c s) = not (p (code c)) && lacks p s

pub split_once-append :
    (c : Char) (k v : String)
    → lacks (λ x. x == code c) k ≡ true
    → split_once (code c) (append k (String.◌∷◌ c v)) ≡ some (k, v)
unfolding split_once lacks
split_once-append c String.[] v h = rw (nil-append (String.◌∷◌ c v)) (ground arith)
split_once-append c (String.◌∷◌ d k) v h =
    rw (cons-append d k (String.◌∷◌ c v)) (ground (arith, split_once-append c k v))

pub split_on-lacks : (n : ℕ) (s : String) → lacks (λ x. x == n) s ≡ true → split_on n s ≡ s ∷ []
unfolding split_on lacks
split_on-lacks n String.[] h = refl
split_on-lacks n (String.◌∷◌ d s) h = ground (arith, split_on-lacks n s)

pub split_on-append :
    (c : Char) (s t : String)
    → lacks (λ x. x == code c) s ≡ true
    → split_on (code c) (append s (String.◌∷◌ c t)) ≡ s ∷ split_on (code c) t
unfolding split_on lacks
split_on-append c String.[] t h = rw (nil-append (String.◌∷◌ c t)) (ground arith)
split_on-append c (String.◌∷◌ d s) t h =
    rw (cons-append d s (String.◌∷◌ c t)) (ground (arith, split_on-append c s t))

trim_right-lacks : (p : ℕ → Bool) (s : String) → lacks p s ≡ true → trim_right p s ≡ s
unfolding trim_right lacks
trim_right-lacks p String.[] h = refl
trim_right-lacks p (String.◌∷◌ c s) h = ground (arith, trim_right-lacks p s)

trim_left-lacks : (p : ℕ → Bool) (s : String) → lacks p s ≡ true → trim_left p s ≡ s
unfolding trim_left lacks
trim_left-lacks p String.[] h = refl
trim_left-lacks p (String.◌∷◌ c s) h = ground arith

-- Nothing is trimmed where there is nothing to trim.
pub trim-lacks : (p : ℕ → Bool) (s : String) → lacks p s ≡ true → trim p s ≡ s
trim-lacks p s h = ap (trim_right p) (trim_left-lacks p s h) ∙ trim_right-lacks p s h

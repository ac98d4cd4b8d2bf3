-- ===== src/Common/Lines.antt =====
-- Texts of lines: what strings.TrimSpace and strings.Split make of lines that were written one
-- after another.
use Prim.Native.Char.{Char, code}
use Prim.Native.Nat.{ℕ}
use Prim.Native.String.{String, ◌++◌ as append}
use text.Mathlib.TextLemmas.{nil-append, cons-append}
use mathlib.Core.Path.{◌≡◌, refl, sym, ap, ◌∙◌}
use mathlib.Core.Bool.{Bool, true, false, ◌&&◌}
use mathlib.Core.List.{List, [], ◌∷◌}
use native.Mathlib.Omega.{arith}
use netbird_minimal.Common.Tests.{◌==◌}
use netbird_minimal.Common.Lists.{All}
use netbird_minimal.Common.Split.{
  is_blank, split_on, trim_left, trim_right, trim_space, is_space, lacks, split_on-lacks,
  split_on-append,
}

abbrev pub newline : Char
newline = "\n"

-- The lines, each with its end.
unfoldable pub unlines : List String → String
unlines [] = ""
unlines (l ∷ ls) = append l (String.◌∷◌ newline (unlines ls))

-- The lines, all but the last with its end.
unfoldable pub body : String → List String → String
body l [] = l
body l (m ∷ ms) = append l (String.◌∷◌ newline (body m ms))

-- A line with a character and without white space.
abbrev pub IsSolid : String → Type 0
IsSolid l = (is_blank l ≡ false) × (lacks is_space l ≡ true)

pub lacks-append : (p : ℕ → Bool) (s t : String) → lacks p (append s t) ≡ (lacks p s && lacks p t)
unfolding lacks
lacks-append p String.[] t = ap (lacks p) (nil-append t)
lacks-append p (String.◌∷◌ c s) t = rw (cons-append c s t) (ground (arith, lacks-append p s t))

pub lacks-weaken :
    (p q : ℕ → Bool)
    → ((c : ℕ) → q c ≡ true → p c ≡ true)
    → (s : String) → lacks p s ≡ true
    → lacks q s ≡ true
unfolding lacks
lacks-weaken p q h String.[] k = refl
lacks-weaken p q h (String.◌∷◌ c s) k = ground (arith, h (code c), lacks-weaken p q h s)

-- What lacks white space lacks ends of lines.
newline-lacks : (s : String) → lacks is_space s ≡ true → lacks (λ x. x == b'\n') s ≡ true
newline-lacks s h = lacks-weaken is_space (λ x. x == b'\n') (λ c e. ground arith) s h

trim_right_last :
    (l : String)
    → lacks is_space l ≡ true
    → trim_right is_space (append l (String.◌∷◌ newline "")) ≡ l
unfolding trim_right lacks
trim_right_last String.[] h = refl
trim_right_last (String.◌∷◌ c l) h =
    rw (cons-append c l (String.◌∷◌ newline "")) (ground (arith, trim_right_last l))

pub blank-append : (s t : String) → is_blank t ≡ false → is_blank (append s t) ≡ false
blank-append String.[] t h = ap is_blank (nil-append t) ∙ h
blank-append (String.◌∷◌ c s) t h = ap is_blank (cons-append c s t)

blank-append_left : (s t : String) → is_blank s ≡ false → is_blank (append s t) ≡ false
blank-append_left String.[] t h = absurd (ground arith)
blank-append_left (String.◌∷◌ c s) t h = ap is_blank (cons-append c s t)

trim_right-append :
    (p : ℕ → Bool) (s t : String)
    → is_blank (trim_right p t) ≡ false
    → trim_right p (append s t) ≡ append s (trim_right p t)
unfolding trim_right
trim_right-append p String.[] t h =
    ap (trim_right p) (nil-append t) ∙ sym (nil-append (trim_right p t))
trim_right-append p (String.◌∷◌ c s) t h = rw (cons-append c s t) (
    rw (cons-append c s (trim_right p t))
      (ground (arith, trim_right-append p s t, blank-append s (trim_right p t))))

body-blank : (l : String) (ls : List String) → is_blank l ≡ false → is_blank (body l ls) ≡ false
unfolding body
body-blank l [] h = h
body-blank l (m ∷ ms) h = blank-append_left l (String.◌∷◌ newline (body m ms)) h

trim_right_lines :
    (l : String) (ls : List String)
    → All IsSolid (l ∷ ls)
    → trim_right is_space (unlines (l ∷ ls)) ≡ body l ls
unfolding unlines body
trim_right_lines l [] (h, u) = trim_right_last l h.1
trim_right_lines l (m ∷ ms) (h, k) =
    let end = end_of (trim_right_lines m ms k) in
    trim_right-append is_space l (String.◌∷◌ newline (unlines (m ∷ ms))) (ap is_blank end)
    ∙ ap (append l) end
  where
    end_of :
        trim_right is_space (unlines (m ∷ ms)) ≡ body m ms
        → trim_right is_space (String.◌∷◌ newline (unlines (m ∷ ms)))
          ≡ String.◌∷◌ newline (body m ms)
    end_of ih = unfold trim_right in ground (arith, ih, body-blank m ms k.0.0)

trim_left-append :
    (p : ℕ → Bool) (s t : String)
    → is_blank s ≡ false
    → lacks p s ≡ true
    → trim_left p (append s t) ≡ append s t
unfolding trim_left lacks
trim_left-append p String.[] t h k = absurd (ground arith)
trim_left-append p (String.◌∷◌ c s) t h k = rw (cons-append c s t) (ground arith)

split_on-body :
    (l : String) (ls : List String) → All IsSolid (l ∷ ls) → split_on b'\n' (body l ls) ≡ l ∷ ls
unfolding body
split_on-body l [] (h, u) = split_on-lacks b'\n' l (newline-lacks l h.1)
split_on-body l (m ∷ ms) (h, k) =
    split_on-append newline l (body m ms) (newline-lacks l h.1)
    ∙ ap (λ x. l ∷ x) (split_on-body m ms k)

-- Solid lines are what trimming and splitting gives back.
pub split_on-unlines :
    (l : String) (ls : List String)
    → All IsSolid (l ∷ ls)
    → split_on b'\n' (trim_space (unlines (l ∷ ls))) ≡ l ∷ ls
split_on-unlines l ls h =
    ap (λ s. split_on b'\n' (trim_right is_space s)) front
    ∙ ap (split_on b'\n') (trim_right_lines l ls h)
    ∙ split_on-body l ls h
  where
    front : trim_left is_space (unlines (l ∷ ls)) ≡ unlines (l ∷ ls)
    front =
        unfold unlines in trim_left-append is_space l (String.◌∷◌ newline (unlines ls)) h.0.0 h.0.1

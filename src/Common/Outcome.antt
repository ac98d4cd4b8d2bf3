-- ===== src/Common/Outcome.antt =====
-- How a Go call ends: with a value, with an error, or in a panic; and loops that stop at the first
-- call which does not end with a value.
use mathlib.Core.List.{List, [], ◌∷◌}
use mathlib.Core.Path.{◌≡◌, refl}
use native.Mathlib.Omega.{arith}
use netbird_minimal.Common.Lists.{All}

pub data Outcome (E A : Type 0) : Type 0 where
  ok : A → Outcome E A
  err : E → Outcome E A
  panic : Outcome E A

-- A call that changes the state `W`; what it wrote before an error stays written.
abbrev pub Act : Type 0 → Type 0 → Type 0 → Type 0
Act W E A = W → Outcome E A × W

module _ {W E A B : Type 0} where
  -- `if err != nil { return err }` behind a call
  abbrev pub and_then : Outcome E A × W → (A → Act W E B) → Outcome E B × W
  and_then (ok a, w) k = k a w
  and_then (err e, w) k = (err e, w)
  and_then (panic, w) k = (panic, w)

module _ {W E A : Type 0} where
  -- `for _, x := range xs { if err := f(x); err != nil { return err } }`
  unfoldable pub each : (A → Act W E (Unit {0})) → List A → Act W E (Unit {0})
  each f [] w = (ok tt, w)
  each f (x ∷ xs) w = and_then (f x w) (λ _. each f xs)

module _ {W E : Type 0} where
  -- Statements one after another, up to the first that does not end with a value.
  unfoldable pub in_turn : List (Act W E (Unit {0})) → Act W E (Unit {0})
  in_turn [] w = (ok tt, w)
  in_turn (f ∷ fs) w = and_then (f w) (λ _. in_turn fs)

  -- What each statement keeps, all of them keep.
  pub in_turn-All :
      (R : W → W → Type 0)
      → ((a : W) → R a a)
      → ((a b c : W) → R a b → R b c → R a c)
      → (fs : List (Act W E (Unit {0}))) → All (λ f. (w : W) → R w (f w).1) fs
      → (w : W) → R w (in_turn fs w).1
  unfolding in_turn
  in_turn-All R stay go [] h w = stay w
  in_turn-All R stay go (f ∷ fs) h w = step (f w) (h.0 w) (in_turn-All R stay go fs h.1)
    where
      step :
          (r : Outcome E (Unit {0}) × W)
          → R w r.1
          → ((v : W) → R v (in_turn fs v).1)
          → R w (and_then r (λ _. in_turn fs)).1
      step (ok u, v) first rest = go w v (in_turn fs v).1 first (rest v)
      step (err e, v) first rest = first
      step (panic, v) first rest = first

-- `and_then` ended with a value: so did the first call.
pub and_then-ok :
    {W E A B : Type 0} (r : Outcome E A × W) (k : A → Act W E B) {b : B} {w' : W}
    → and_then r k ≡ (ok b, w')
    → (a : A) × (w1 : W) × (r ≡ (ok a, w1)) × (k a w1 ≡ (ok b, w'))
and_then-ok (ok a, w1) k h = (a, w1, refl, h)
and_then-ok (err e, w1) k h = absurd (ground arith)
and_then-ok (panic, w1) k h = absurd (ground arith)

-- Behind a first call that ends with a value the second is made.
pub and_then-run :
    {W E A B : Type 0} (r : Outcome E A × W) (k : A → Act W E B) {a : A}
    → r.0 ≡ ok a
    → and_then r k ≡ k a r.1
and_then-run (r, w) k h = rw h

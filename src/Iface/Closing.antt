-- ===== src/Iface/Closing.antt =====
-- How Close of go/iface/iface.go ends.
use mathlib.Core.List.{append-nil}
use mathlib.Core.Path.{subst}
use netbird_minimal.Common.{
  ℕ, zero, suc, ◌+◌, ◌*◌, ◌≤◌, ◌≡◌, refl, sym, ap, ◌⊎◌, Bool, true, false, Option, none, some, List,
  [], ◌∷◌, ◌++◌, arith, if◌then◌else◌, leb, Bool-cases, inl, inr,
}
use netbird_minimal.Iface.{
  is_missing, IfaceEnv, CloseError, not_removed, wait_until_removed, destroy, errors_of, after_wait,
  close,
}

-- The documented behaviour of the clock, which a lookup does not set back.
pub record CloseLaws (env : IfaceEnv) : Type 0 where
  pub sleep_lem : (t : ℕ) (w : env.World) → env.clock w + t ≤ env.clock (env.sleep t w)
  pub lookup_clock : (w : env.World) → env.clock w ≤ env.clock (env.interface_by_name w).1

module _ (env : IfaceEnv) (laws : CloseLaws env) where
  open env use {World}

  -- A lookup ended here that gave no interface or a net.OpError.
  abbrev pub IsMissed : World → Type 0
  IsMissed w =
      (v : World) × (is_missing env (env.interface_by_name v).0 ≡ true)
      × ((env.interface_by_name v).1 ≡ w)

  -- LinkDel of a link ended here without an error.
  abbrev pub IsDeleted : World → Type 0
  IsDeleted w = (link : env.Link) × (v : World) × (env.link_del link v ≡ (false, w))

  -- The loop returned, with such a lookup where the timer did not end it.
  abbrev Waited : Option Bool × World → Type 0
  Waited r = (b : Bool) × (r.0 ≡ some b) × (b ≡ false → IsMissed r.1)

  stays :
      (n start : ℕ) (w : World)
      → let (l, w1) = env.interface_by_name w in
        (is_missing env l ≡ true → wait_until_removed env (suc n) start w ≡ (some false, w1))
        × (is_missing env l ≡ false
            → leb (start + 5000) (env.clock w1) ≡ true
            → wait_until_removed env (suc n) start w ≡ (some true, w1))
        × (is_missing env l ≡ false
            → leb (start + 5000) (env.clock w1) ≡ false
            → wait_until_removed env (suc n) start w
              ≡ wait_until_removed env n start (env.sleep 100 w1))
  stays n start w = (
    λ m. unfold wait_until_removed in ground (arith, m),
    λ m f. unfold wait_until_removed in ground (arith, m, f),
    λ m f. unfold wait_until_removed in ground (arith, m, f),
  )

  -- One round, where the next ones return if the timer has not ended.
  round-Waited :
      (n start : ℕ) (w : World)
      → (leb (start + 5000) (env.clock (env.interface_by_name w).1) ≡ false
          → Waited (wait_until_removed env n start (env.sleep 100 (env.interface_by_name w).1)))
      → Waited (wait_until_removed env (suc n) start w)
  round-Waited n start w later =
      let step = stays n start w in
      elim (Bool-cases (is_missing env (env.interface_by_name w).0)) [
        | inl m ↦ subst Waited (sym (step.0 m)) (false, refl, λ _. (w, m, refl))
        | inr m ↦ elim (Bool-cases (leb (start + 5000) (env.clock (env.interface_by_name w).1))) [
          | inl f ↦ subst Waited (sym (step.1 m f)) (true, refl, λ q. absurd (ground (arith, q)))
          | inr f ↦ subst Waited (sym (step.2 m f)) (later f)
        ]
      ]

  -- Enough fuel: each round sleeps a tenth of a second.
  wait-Waited :
      (n start : ℕ) (w : World)
      → start + 5000 ≤ env.clock w + 100 * n
      → Waited (wait_until_removed env (suc n) start w)
  wait-Waited zero start w h =
      round-Waited zero start w (λ f. absurd (ground (arith, laws.lookup_clock w)))
  wait-Waited (suc n) start w h =
      let w1 = (env.interface_by_name w).1 in
      round-Waited (suc n) start w (λ _.
        wait-Waited n start (env.sleep 100 w1)
          (omega (arith, h, laws.lookup_clock w, laws.sleep_lem 100 w1)))

  destroy-IsDeleted : (w : World) → (destroy env w).0 ≡ false → IsDeleted (destroy env w).1
  unfolding destroy
  destroy-IsDeleted w h = split (env.link_by_name w) h
    where
      split :
          (r : Option env.Link × World)
          → (let out : Bool × World = elim r.0 [
            | none ↦ (true, r.1)
            | some link ↦ env.link_del link r.1
          ] in
              out.0)
            ≡ false
          → IsDeleted (
              let out : Bool × World = elim r.0 [
                | none ↦ (true, r.1)
                | some link ↦ env.link_del link r.1
              ] in
              out.1)
      split (none, v) h = absurd (ground arith)
      split (some link, v) h = (link, v, ap (λ b. (b, (env.link_del link v).1)) h)

  -- The errors, with that of the wait or without it.
  abbrev pub with_left : List CloseError → Bool → List CloseError
  with_left es left = es ++ (if left then not_removed ∷ [] else [])

  -- How Close ends behind these errors.
  abbrev pub Ended : List CloseError → Option (List CloseError) × World → Type 0
  Ended es r =
      (left : Bool) × (r.0 ≡ some (with_left es left))
      × (left ≡ false → IsMissed r.1 ⊎ IsDeleted r.1)

  after_wait-Ended :
      (es : List CloseError) (r : Option Bool × World) → Waited r → Ended es (after_wait env es r)
  unfolding after_wait
  after_wait-Ended es (none, w) h = absurd (ground (arith, h.1))
  after_wait-Ended es (some false, w) h =
      (false, ap some (sym (append-nil es)), λ _. inl (h.2 (ground (arith, h.1))))
  after_wait-Ended es (some true, w) h = ((destroy env w).0, refl, λ q. inr (destroy-IsDeleted w q))

  -- Close ends: the loop of waitUntilRemoved is over after at most 51 rounds, since each sleeps a tenth
  -- of a second. Its errors are those of the proxy and of the device, as they occur, with the one that
  -- the interface was not removed or without it; where it is not among them, the last call was a
  -- lookup of the interface that gave none or a net.OpError, or LinkDel deleted the link.
  pub close-Ended :
      (w : World)
      → Ended
          (errors_of env (env.free_proxy w).0 (env.close_tun (env.free_proxy w).1).0)
          (close env w)
  unfolding close
  close-Ended w =
      let (freed, w1) = env.free_proxy w in
      let (closed, w2) = env.close_tun w1 in
      after_wait-Ended (errors_of env freed closed) (wait_until_removed env 51 (env.clock w2) w2)
        (wait-Waited 50 (env.clock w2) w2 (omega arith))

-- ===== src/SystemOps/Rules/Installed.antt =====
-- Which policy rules are installed after SetupRouting and after CleanupRouting of
-- go/internal/routemanager/systemops/systemops_linux.go.
use netbird_minimal.Common.{
  ℕ, String, ◌≡◌, refl, Bool, true, false, Option, none, some, List, [], ◌∷◌, ◌++◌, arith, All,
  All-map, Option-cases, inl, inr, ◌⊎◌, sym, ◌∙◌, ap,
}
use mathlib.Core.Path.{subst}
use netbird_minimal.SystemOps.Types.{
  Family, v4, v6, Errno, eexist, enoent, RuleParams, Rule, SysError, is_op_err,
  netbird_vpn_table_id,
}
use netbird_minimal.SystemOps.Env.{Netip, Kernel}
use netbird_minimal.SystemOps.Rules.{
  get_setup_rules, to_rule, State, add_rule, remove_rule, add_rules, remove_rules, flush_routes,
  report, cleanup_routing, setup_routing,
}

-- The documented behaviour of the kernel's policy rules.
pub record RuleLaws {net : Netip} (kernel : Kernel net) : Type 1 where
  -- a rule is installed
  pub Has : kernel.World → Rule → Type 0
  -- the kernel has the address family
  pub supported : Family → Bool
  pub add_none :
      (r : Rule) (w : kernel.World) → (kernel.rule_add r w).0 ≡ none → Has (kernel.rule_add r w).1 r
  pub add_eexist :
      (r : Rule) (w : kernel.World)
      → (kernel.rule_add r w).0 ≡ some eexist
      → Has (kernel.rule_add r w).1 r
  pub add_unsupported :
      (r : Rule) (w : kernel.World) (n : Errno)
      → (kernel.rule_add r w).0 ≡ some n
      → is_op_err n ≡ true
      → supported r.family ≡ false
  pub add_keeps : (r s : Rule) (w : kernel.World) → Has w s → Has (kernel.rule_add r w).1 s
  pub del_none :
      (r : Rule) (w : kernel.World)
      → (kernel.rule_del r w).0 ≡ none
      → ¬ Has (kernel.rule_del r w).1 r
  pub del_enoent :
      (r : Rule) (w : kernel.World)
      → (kernel.rule_del r w).0 ≡ some enoent
      → ¬ Has (kernel.rule_del r w).1 r
  pub del_unsupported :
      (r : Rule) (w : kernel.World) (n : Errno)
      → (kernel.rule_del r w).0 ≡ some n
      → is_op_err n ≡ true
      → supported r.family ≡ false
  pub del_keeps_out : (r s : Rule) (w : kernel.World) → ¬ Has w s → ¬ Has (kernel.rule_del r w).1 s
  pub table_name_keeps :
      (s : Rule) (w : kernel.World) → Has w s → Has (kernel.add_routing_table_name w) s
  pub sysctl_setup_keeps : (s : Rule) (w : kernel.World) → Has w s → Has (kernel.sysctl_setup w).1 s
  pub sysctl_cleanup_keeps_out :
      (o : Option kernel.Sysctl) (s : Rule) (w : kernel.World)
      → ¬ Has w s
      → ¬ Has (kernel.sysctl_cleanup o w).1 s

no_append : {A : Type 0} (xs ys : List A) → xs ++ ys ≡ [] → (xs ≡ []) × (ys ≡ [])
no_append [] ys h = (refl, h)
no_append (x ∷ xs) ys h = cc

report-nil : (s : String) (es : List SysError) → report s es ≡ [] → es ≡ []
report-nil s [] h = refl
report-nil s (e ∷ es) h = cc

module _ (net : Netip) (kernel : Kernel net) (laws : RuleLaws kernel) where
  open kernel use {World, Sysctl}
  open laws use {Has, supported}

  -- A rule of a family that the kernel has is installed.
  abbrev pub IsInstalled : World → RuleParams → Type 0
  IsInstalled w p = supported p.family ≡ true → Has w (to_rule p)

  -- A rule of a family that the kernel has is not installed.
  abbrev pub IsAbsent : World → RuleParams → Type 0
  IsAbsent w p = supported p.family ≡ true → ¬ Has w (to_rule p)

  add_rule-world :
      (p : RuleParams) (w : World) → (add_rule net kernel p w).1 ≡ (kernel.rule_add (to_rule p) w).1
  unfolding add_rule
  add_rule-world p w = ground arith

  remove_rule-world :
      (p : RuleParams) (w : World)
      → (remove_rule net kernel p w).1 ≡ (kernel.rule_del (to_rule p) w).1
  unfolding remove_rule
  remove_rule-world p w = ground arith

  -- The answers of the kernel that addRule takes for success.
  add_rule-answers :
      (p : RuleParams) (w : World)
      → (add_rule net kernel p w).0 ≡ none
      → ((kernel.rule_add (to_rule p) w).0 ≡ none)
        ⊎ ((n : Errno) × ((kernel.rule_add (to_rule p) w).0 ≡ some n)
            × ((n ≡ eexist) ⊎ (is_op_err n ≡ true)))
  unfolding add_rule is_op_err
  add_rule-answers p w h = elim (Option-cases (kernel.rule_add (to_rule p) w).0) [
    | inl e ↦ inl e
    | inr (n, e) ↦ inr (n, e, ground arith)
  ]

  remove_rule-answers :
      (p : RuleParams) (w : World)
      → (remove_rule net kernel p w).0 ≡ none
      → ((kernel.rule_del (to_rule p) w).0 ≡ none)
        ⊎ ((n : Errno) × ((kernel.rule_del (to_rule p) w).0 ≡ some n)
            × ((n ≡ enoent) ⊎ (is_op_err n ≡ true)))
  unfolding remove_rule is_op_err
  remove_rule-answers p w h = elim (Option-cases (kernel.rule_del (to_rule p) w).0) [
    | inl e ↦ inl e
    | inr (n, e) ↦ inr (n, e, ground arith)
  ]

  add_rule-IsInstalled :
      (p : RuleParams) (w : World)
      → (add_rule net kernel p w).0 ≡ none
      → IsInstalled (add_rule net kernel p w).1 p
  add_rule-IsInstalled p w h on = rw (add_rule-world p w) (elim (add_rule-answers p w h) [
    | inl e ↦ laws.add_none (to_rule p) w e
    | inr (n, e, inl old) ↦ laws.add_eexist (to_rule p) w (rw old at e)
    | inr (n, e, inr off) ↦
        absurd (clash (supported p.family) on (laws.add_unsupported (to_rule p) w n e off))
  ])
    where
      clash : (b : Bool) → b ≡ true → b ≡ false → ⊥
      clash b x y = ground arith

  remove_rule-IsAbsent :
      (p : RuleParams) (w : World)
      → (remove_rule net kernel p w).0 ≡ none
      → IsAbsent (remove_rule net kernel p w).1 p
  remove_rule-IsAbsent p w h on = rw (remove_rule-world p w) (elim (remove_rule-answers p w h) [
    | inl e ↦ laws.del_none (to_rule p) w e
    | inr (n, e, inl gone) ↦ laws.del_enoent (to_rule p) w (rw gone at e)
    | inr (n, e, inr off) ↦
        absurd (clash (supported p.family) on (laws.del_unsupported (to_rule p) w n e off))
  ])
    where
      clash : (b : Bool) → b ≡ true → b ≡ false → ⊥
      clash b x y = ground arith

  add_rules-step :
      (p : RuleParams) (ps : List RuleParams) (w : World)
      → (add_rule net kernel p w).0 ≡ none
      → add_rules net kernel (p ∷ ps) w ≡ add_rules net kernel ps (add_rule net kernel p w).1
  unfolding add_rules
  add_rules-step p ps w e = ground arith

  add_rules-first :
      (p : RuleParams) (ps : List RuleParams) (w : World)
      → (add_rules net kernel (p ∷ ps) w).0 ≡ none
      → (add_rule net kernel p w).0 ≡ none
  unfolding add_rules
  add_rules-first p ps w h = elim (Option-cases (add_rule net kernel p w).0) [
    | inl e ↦ e
    | inr (x, e) ↦ absurd (ground arith)
  ]

  add_rules-IsInstalled :
      (ps : List RuleParams) (w : World)
      → (add_rules net kernel ps w).0 ≡ none
      → All (IsInstalled (add_rules net kernel ps w).1) ps
        × ((s : Rule) → Has w s → Has (add_rules net kernel ps w).1 s)
  add_rules-IsInstalled [] w h = (tt, λ s old. unfold add_rules in old)
  add_rules-IsInstalled (p ∷ ps) w h =
      let e = add_rules-first p ps w h in
      let step = add_rules-step p ps w e in
      let w1 = (add_rule net kernel p w).1 in
      let (rest, keeps) = add_rules-IsInstalled ps w1 (sym (ap (λ r. r.0) step) ∙ h) in
      subst (λ r. All (IsInstalled r) (p ∷ ps) × ((s : Rule) → Has w s → Has r s))
        (ap (λ r. r.1) (sym step))
        (
          ((λ on. keeps (to_rule p) (add_rule-IsInstalled p w e on)), rest),
          λ s old. keeps s (rw (add_rule-world p w) (laws.add_keeps (to_rule p) s w old)),
        )

  setup-first :
      (mark : ℕ) (s : State Sysctl World)
      → (setup_routing net kernel mark true s).0 ≡ none
      → (add_rules net kernel (get_setup_rules mark) s.world).0 ≡ none
  unfolding setup_routing
  setup-first mark s h =
      elim (Option-cases (add_rules net kernel (get_setup_rules mark) s.world).0) [
        | inl e ↦ e
        | inr (x, e) ↦ absurd (ground arith)
      ]

  setup-world :
      (mark : ℕ) (s : State Sysctl World)
      → (add_rules net kernel (get_setup_rules mark) s.world).0 ≡ none
      → (setup_routing net kernel mark true s).1.world
        ≡ (kernel.sysctl_setup (
            kernel.add_routing_table_name
              (add_rules net kernel (get_setup_rules mark) s.world).1)).1
  unfolding setup_routing
  setup-world mark s e = ground arith

  -- After SetupRouting without error, with advanced routing, each of the four rules whose address
  -- family the kernel has is installed.
  pub setup_routing-installs :
      (mark : ℕ) (s : State Sysctl World)
      → (setup_routing net kernel mark true s).0 ≡ none
      → All (IsInstalled (setup_routing net kernel mark true s).1.world) (get_setup_rules mark)
  setup_routing-installs mark s h =
      let e = setup-first mark s h in
      let w1 = (add_rules net kernel (get_setup_rules mark) s.world).1 in
      subst (λ w. All (IsInstalled w) (get_setup_rules mark)) (sym (setup-world mark s e))
        (All-map {P = IsInstalled w1}
          {Q = IsInstalled (kernel.sysctl_setup (kernel.add_routing_table_name w1)).1}
          (λ p has on.
            laws.sysctl_setup_keeps (to_rule p) (kernel.add_routing_table_name w1)
              (laws.table_name_keeps (to_rule p) w1 (has on)))
          (get_setup_rules mark) (add_rules-IsInstalled (get_setup_rules mark) s.world e).0)

  remove_rules-IsAbsent :
      (ps : List RuleParams) (w : World)
      → (remove_rules net kernel ps w).0 ≡ []
      → All (IsAbsent (remove_rules net kernel ps w).1) ps
        × ((s : Rule) → ¬ Has w s → ¬ Has (remove_rules net kernel ps w).1 s)
  unfolding remove_rules
  remove_rules-IsAbsent [] w h = (tt, λ s out. out)
  remove_rules-IsAbsent (p ∷ ps) w h =
      let w1 = (remove_rule net kernel p w).1 in
      let gone : (remove_rule net kernel p w).0 ≡ none =
        first (remove_rules net kernel ps w1).0 (remove_rule net kernel p w).0 h in
      let (rest, keeps) =
        remove_rules-IsAbsent ps w1
          (others (remove_rules net kernel ps w1).0 (remove_rule net kernel p w).0 h) in
      (
        ((λ on. keeps (to_rule p) (remove_rule-IsAbsent p w gone on)), rest),
        λ s out. keeps s (rw (remove_rule-world p w) (laws.del_keeps_out (to_rule p) s w out)),
      )
    where
      first :
          (es : List SysError) (e : Option SysError)
          → elim e as (λ _. List SysError) [
            | none ↦ es
            | some x ↦ SysError.context p.description x ∷ es
          ]
            ≡ []
          → e ≡ none
      first es none q = refl
      first es (some x) q = cc

      others :
          (es : List SysError) (e : Option SysError)
          → elim e as (λ _. List SysError) [
            | none ↦ es
            | some x ↦ SysError.context p.description x ∷ es
          ]
            ≡ []
          → es ≡ []
      others es none q = q
      others es (some x) q = cc

  cleanup-rules :
      (mark : ℕ) (s : State Sysctl World)
      → (cleanup_routing net kernel mark true s).0 ≡ []
      → (w2 : World) × ((remove_rules net kernel (get_setup_rules mark) w2).0 ≡ [])
        × ((cleanup_routing net kernel mark true s).1.world
            ≡ (kernel.sysctl_cleanup s.original_sysctl
                (remove_rules net kernel (get_setup_rules mark) w2).1).1)
  unfolding cleanup_routing
  cleanup-rules mark s h = (
    (flush_routes net kernel netbird_vpn_table_id v6
        (flush_routes net kernel netbird_vpn_table_id v4 s.world).1).1,
    report-nil "rules" _
        (no_append _ _
          (no_append (report "flush routes v6" _) _
            (no_append (report "flush routes v4" _) _ h).1).1).0,
    refl,
  )

  -- After CleanupRouting without error, with advanced routing, none of the four rules whose
  -- address family the kernel has is installed.
  pub cleanup_routing-removes :
      (mark : ℕ) (s : State Sysctl World)
      → (cleanup_routing net kernel mark true s).0 ≡ []
      → All (IsAbsent (cleanup_routing net kernel mark true s).1.world) (get_setup_rules mark)
  cleanup_routing-removes mark s h =
      let (w2, e, same) = cleanup-rules mark s h in
      let w3 = (remove_rules net kernel (get_setup_rules mark) w2).1 in
      subst (λ w. All (IsAbsent w) (get_setup_rules mark)) (sym same)
        (All-map {P = IsAbsent w3} {Q = IsAbsent (kernel.sysctl_cleanup s.original_sysctl w3).1}
          (λ p out on. laws.sysctl_cleanup_keeps_out s.original_sysctl (to_rule p) w3 (out on))
          (get_setup_rules mark) (remove_rules-IsAbsent (get_setup_rules mark) w2 e).0)

-- ===== src/Engine/ForwardRules/Converts.antt =====
-- Which rules updateForwardRules of go/internal/engine.go returns.
use netbird_minimal.Common.{
  ℕ, ◌+◌, ◌≡◌, refl, sym, ◌∙◌, true, false, not, some, List, [], ◌∷◌, arith, is_empty, length,
}
use mathlib.Core.Path.{subst}
use netbird_minimal.Engine.Netip.{Netip}
use netbird_minimal.Engine.PeerEnv.{PeerEnv}
use netbird_minimal.Engine.Messages.{ForwardingRule}
use netbird_minimal.Engine.SyncEnv.{SyncEnv}
use netbird_minimal.Engine.SyncState.{Engine}
use netbird_minimal.Engine.ForwardRules.{
  RuleError, Converted, converted, refused, Rule, convert_rule, convert_rules, with_ingress,
  update_forward_rules,
}

module _ {net : Netip} {peers : PeerEnv net} (env : SyncEnv peers) where
  open env use {PortMessage}

  -- The rule is what the message's parts convert to.
  abbrev pub Matches : ForwardingRule PortMessage → Rule env → Type 0
  Matches r x =
      (env.convert_protocol r.protocol ≡ some x.protocol)
      × (env.convert_port_info r.destination_port ≡ some x.destination_port)
      × (env.convert_to_ip r.translated_address ≡ some x.translated_address)
      × (env.convert_port_info r.translated_port ≡ some x.translated_port)

  -- The rules come from the messages, in their order, with none left out that converts; `n` are.
  pub data Selects : ℕ → List (ForwardingRule PortMessage) → List (Rule env) → Type 0 where
    done : {n : ℕ} → n ≡ 0 → Selects n [] []
    take :
        {n : ℕ} {r : ForwardingRule PortMessage} {rs : List (ForwardingRule PortMessage)}
        {x : Rule env} {xs : List (Rule env)}
        → Matches r x
        → Selects n rs xs
        → Selects n (r ∷ rs) (x ∷ xs)
    skip :
        {n k : ℕ} {r : ForwardingRule PortMessage} {rs : List (ForwardingRule PortMessage)}
        {xs : List (Rule env)}
        → ((x : Rule env) → ¬ Matches r x)
        → k ≡ n + 1
        → Selects n rs xs
        → Selects k (r ∷ rs) xs

  converted-Matches :
      (r : ForwardingRule PortMessage) {x : Rule env}
      → convert_rule env r ≡ converted x
      → Matches r x
  unfolding convert_rule
  converted-Matches r h = (ground arith, ground arith, ground arith, ground arith)

  Matches-converted :
      (r : ForwardingRule PortMessage) (x : Rule env)
      → Matches r x
      → convert_rule env r ≡ converted x
  unfolding convert_rule
  Matches-converted r x (a, b, c, d) = ground arith

  differ : (e : RuleError) (x : Rule env) → ¬ (refused e ≡ converted x)
  differ e x q = cc

  convert_rules-Selects :
      (rs : List (ForwardingRule PortMessage))
      → Selects (length (convert_rules env rs).1) rs (convert_rules env rs).0
  unfolding convert_rules
  convert_rules-Selects [] = done refl
  convert_rules-Selects (r ∷ rs) = split (convert_rule env r) refl (convert_rules-Selects rs)
    where
      split :
          (o : Converted (Rule env))
          → convert_rule env r ≡ o
          → Selects (length (convert_rules env rs).1) rs (convert_rules env rs).0
          → (let out : List (Rule env) × List RuleError = elim o [
            | converted x ↦ (x ∷ (convert_rules env rs).0, (convert_rules env rs).1)
            | refused e ↦ ((convert_rules env rs).0, e ∷ (convert_rules env rs).1)
          ] in
              Selects (length out.1) (r ∷ rs) out.0)
      split (converted x) h ih = take (converted-Matches r h) ih
      split (refused e) h ih =
          skip (λ x m. differ e x (sym h ∙ Matches-converted r x m)) (omega arith) ih

  -- With a firewall and some rules, updateForwardRules returns the rules that convert, in their
  -- order and with no other, one error for each rule that does not, and an ingress manager runs;
  -- without rules none runs.
  pub update_forward_rules-Selects :
      (rs : List (ForwardingRule PortMessage)) (e : Engine env)
      → e.firewall ≡ true
      → let r = update_forward_rules env rs e in
        (is_empty rs ≡ false → Selects (length r.0.1) rs r.0.0)
        × (r.1.ingress_gateway_mgr ≡ not (is_empty rs))
  update_forward_rules-Selects rs e h = (
    λ n. subst (λ o. Selects (length o.1) rs o.0) (sym (made n)) (convert_rules-Selects rs),
    unfold update_forward_rules in unfold with_ingress in ground arith,
  )
    where
      made : is_empty rs ≡ false → (update_forward_rules env rs e).0 ≡ convert_rules env rs
      made n = unfold update_forward_rules in ground arith

-- ===== src/Engine/ForwardRules.antt =====
-- The ingress forwarding rules: updateForwardRules of go/internal/engine.go.
pub mod Converts
mod Tests
use netbird_minimal.Common.{
  String, Bool, true, false, not, Option, none, some, List, [], ◌∷◌, if◌then◌else◌, is_empty,
  is_some,
}
use netbird_minimal.Engine.Netip.{Netip}
use netbird_minimal.Engine.PeerEnv.{PeerEnv}
use netbird_minimal.Engine.Messages.{ForwardingRule}
use netbird_minimal.Engine.Converted.{ForwardRule}
use netbird_minimal.Engine.SyncEnv.{SyncEnv}
use netbird_minimal.Engine.SyncState.{Engine}

-- the errors of one rule
pub data RuleError : Type 0 where
  bad_protocol bad_destination_port bad_translated_address bad_translated_port : RuleError
  close_failed : RuleError

pub data Converted (A : Type 0) : Type 0 where
  converted : A → Converted A
  refused : RuleError → Converted A

module _ {net : Netip} {peers : PeerEnv net} (env : SyncEnv peers) where
  open env use {PortMessage, Protocol, Port, Addr}

  abbrev pub Rule : Type 0
  Rule = ForwardRule Protocol Port Addr

  -- the body of the loop: the rule, or the error that is collected
  unfoldable pub convert_rule : ForwardingRule PortMessage → Converted Rule
  convert_rule r = elim (env.convert_protocol r.protocol) [
    | none ↦ refused bad_protocol
    | some proto ↦ elim (env.convert_port_info r.destination_port) [
      | none ↦ refused bad_destination_port
      | some dst ↦ elim (env.convert_to_ip r.translated_address) [
        | none ↦ refused bad_translated_address
        | some ip ↦ elim (env.convert_port_info r.translated_port) [
          | none ↦ refused bad_translated_port
          | some port ↦ converted (record {
            protocol = proto;
            destination_port = dst;
            translated_address = ip;
            translated_port = port;
          })
        ]
      ]
    ]
  ]

  -- the loop
  unfoldable pub convert_rules : List (ForwardingRule PortMessage) → List Rule × List RuleError
  convert_rules [] = ([], [])
  convert_rules (r ∷ rs) =
      let (rules, es) = convert_rules rs in
      elim (convert_rule r) [ converted x ↦ (x ∷ rules, es) | refused e ↦ (rules, e ∷ es) ]

  -- the ingress gateway manager, made where there is none
  unfoldable pub with_ingress : Engine env → Engine env
  with_ingress e =
      if e.ingress_gateway_mgr
      then e
      else record e { ingress_gateway_mgr = true; world = env.new_ingress e.world }

  -- updateForwardRules; an error of the manager's Update is only logged
  unfoldable pub update_forward_rules :
      List (ForwardingRule PortMessage) → Engine env → (List Rule × List RuleError) × Engine env
  update_forward_rules rules e =
      if not e.firewall
      then (([], []), e)
      else (if is_empty rules
          then (if not e.ingress_gateway_mgr
              then (([], []), e)
              else (let (failed, w) = env.close_ingress e.world in
                  (
                    ([], if failed then close_failed ∷ [] else []),
                    record e { ingress_gateway_mgr = false; world = env.unset_ingress w },
                  )))
          else (let e1 = with_ingress e in
              let out = convert_rules rules in
              (out, record e1 { world = env.update_ingress out.0 e1.world })))

-- ===== src/SystemOps/Names.antt =====
-- The names that go/internal/routemanager/systemops/systemops_linux.go shows for the numbers of
-- netlink. The numbers are those of linux/rtnetlink.h and linux/fib_rules.h; `decimal` is fmt's %d.
use netbird_minimal.Common.{ℕ, String, ◌≡◌, ◌≢◌, ◌↔◌, List, [], ◌∷◌, ◌==◌, if◌then◌else◌, arith}
use netbird_minimal.SystemOps.Types.{
  rt_table_main, rt_table_local, rt_table_default, netbird_vpn_table_id,
}

-- a switch over numbers
unfoldable pub switch : ℕ → List (ℕ × String) → String → String
switch n [] d = d
switch n ((k, name) ∷ cases) d = let rest = switch n cases d in if n == k then name else rest

module _ (decimal : ℕ → String) where
  -- routeProtocolToString
  unfoldable pub route_protocol_to_string : ℕ → String
  unfolding switch
  route_protocol_to_string protocol =
      switch protocol
        ((0, "unspec")
          ∷ (1, "redirect")
          ∷ (2, "kernel")
          ∷ (3, "boot")
          ∷ (4, "static")
          ∷ (16, "dhcp")
          ∷ (9, "ra")
          ∷ (11, "zebra")
          ∷ (12, "bird")
          ∷ (13, "dnrouted")
          ∷ (14, "xorp")
          ∷ (15, "ntk")
          ∷ [])
        (decimal protocol)

  -- routeScopeToString
  unfoldable pub route_scope_to_string : ℕ → String
  unfolding switch
  route_scope_to_string scope =
      switch scope
        ((0, "global") ∷ (200, "site") ∷ (253, "link") ∷ (254, "host") ∷ (255, "nowhere") ∷ [])
        (decimal scope)

  -- routeTypeToString
  unfoldable pub route_type_to_string : ℕ → String
  unfolding switch
  route_type_to_string route_type =
      switch route_type
        ((0, "unspec")
          ∷ (1, "unicast")
          ∷ (2, "local")
          ∷ (3, "broadcast")
          ∷ (4, "anycast")
          ∷ (5, "multicast")
          ∷ (6, "blackhole")
          ∷ (7, "unreachable")
          ∷ (8, "prohibit")
          ∷ (9, "throw")
          ∷ (10, "nat")
          ∷ (11, "xresolve")
          ∷ [])
        (decimal route_type)

  -- routeTableToString
  unfoldable pub route_table_to_string : ℕ → String
  unfolding switch
  route_table_to_string table =
      switch table
        ((rt_table_main, "main")
          ∷ (rt_table_local, "local")
          ∷ (netbird_vpn_table_id, "netbird")
          ∷ [])
        (decimal table)

  -- ruleTableToString
  unfoldable pub rule_table_to_string : ℕ → String
  unfolding switch
  rule_table_to_string table =
      switch table
        ((rt_table_main, "main")
          ∷ (rt_table_local, "local")
          ∷ (rt_table_default, "default")
          ∷ (netbird_vpn_table_id, "netbird")
          ∷ [])
        (decimal table)

  -- ruleActionToString
  unfoldable pub rule_action_to_string : ℕ → String
  unfolding switch
  rule_action_to_string action =
      switch action
        ((0, "unspec")
          ∷ (1, "lookup")
          ∷ (2, "goto")
          ∷ (3, "nop")
          ∷ (6, "blackhole")
          ∷ (7, "unreachable")
          ∷ (8, "prohibit")
          ∷ [])
        (decimal action)

  -- The two functions name every table alike but the default table, where they differ as soon as
  -- its number is not printed as "default".
  pub table_names_agree :
      (table : ℕ)
      → decimal rt_table_default ≢ "default"
      → (route_table_to_string table ≡ rule_table_to_string table) ↔ (table ≢ rt_table_default)
  unfolding route_table_to_string rule_table_to_string
  table_names_agree table h = (λ e d. h (differ d e), λ ne. ground arith)
    where
      differ :
          table ≡ rt_table_default
          → route_table_to_string table ≡ rule_table_to_string table
          → decimal rt_table_default ≡ "default"
      differ d e = rw d at e

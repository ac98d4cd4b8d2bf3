-- ===== src/SystemOps/Tables/Tests.antt =====
-- The tables found where netlink lists some routes for IPv4 and fails for IPv6.
use netbird_minimal.Common.{◌≡◌, true, none, some, [], ◌∷◌, ℕ, List, Option, All}
use netbird_minimal.SystemOps.Types.{Family, v4, v6}
use netbird_minimal.SystemOps.Tables.{
  IsTableList, has_table, get_all_routing_tables, standard_tables, get_all_routing_tables_complete,
}

abbrev listed : Family → Option (List ℕ)
listed v4 = some (254 ∷ 0 ∷ 100 ∷ 254 ∷ [])
listed v6 = none

get_all_routing_tables_complete_example :
    IsTableList (get_all_routing_tables listed)
    × All (λ n. has_table n (get_all_routing_tables listed) ≡ true) standard_tables
get_all_routing_tables_complete_example = get_all_routing_tables_complete listed

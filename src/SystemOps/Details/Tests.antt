-- ===== src/SystemOps/Details/Tests.antt =====
-- Listing the routes of one table where an address is a number below 33.
use netbird_minimal.Common.{ℕ, ◌≡◌, refl, none, some, [], ◌∷◌, map, ltb, if◌then◌else◌}
use netbird_minimal.SystemOps.Types.{v4}
use netbird_minimal.SystemOps.Listing.{ListedRoute, Listing}
use netbird_minimal.SystemOps.Details.{get_routes, get_routes_for_family, prefixes}
use netbird_minimal.SystemOps.Details.Agree.{get_routes-detailed}

abbrev one : ℕ → ListedRoute ℕ
one a = record {
  dst = some (record { ip = a; ones = 8 });
  gw = none;
  priority = 0;
  link_index = 0;
  protocol = 2;
  scope = 0;
  route_type = 1;
}

abbrev sample : Listing
sample = record {
  Ip = ℕ;
  Addr = ℕ;
  Prefix = ℕ;
  Int = ℕ;
  addr_from_slice = λ n. if ltb n 33 then some n else none;
  unmap = λ a. a;
  prefix_from = λ a n. a;
  is_valid = λ p. ltb p 20;
  no_prefix = 0;
  no_addr = 0;
  zero_prefix = λ family. 0;
  decimal = λ n. "";
  to_uint32 = λ n. n;
  route_list = λ family table. some (one 10 ∷ one 25 ∷ one 3 ∷ []);
  route_tables = λ family. none;
  rule_list = λ family. none;
  link_by_index = λ n. none;
}

get_routes-detailed_example :
    map (λ d. d.dst) (get_routes_for_family sample (λ s. s) 254 v4) ≡ 10 ∷ 3 ∷ []
unfolding get_routes prefixes
get_routes-detailed_example =
    get_routes-detailed sample (λ s. s) 254 v4 refl (refl, (refl, (refl, tt))) refl

-- ===== src/Engine/Netip.antt =====
-- What the engine uses of the standard library's net/netip: prefixes are parsed and printed.
use netbird_minimal.Common.{String, Option}

pub record Netip : Type 1 where
  pub Prefix : Type 0
  -- netip.ParsePrefix, `none` for its error
  pub parse_prefix : String → Option Prefix
  -- Prefix.String
  pub prefix_string : Prefix → String
  -- Prefix.Addr().String()
  pub addr_string : Prefix → String

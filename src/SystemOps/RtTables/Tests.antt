-- ===== src/SystemOps/RtTables/Tests.antt =====
-- The entry of rt_tables where the file is its lines, and whether it is empty or ends with an end of
-- line.
use netbird_minimal.Common.{
  String, ◌≡◌, refl, ap, Bool, true, false, Bool-cases, inl, inr, none, some, List, [], ◌∷◌, ◌++◌,
  str_eq, if◌then◌else◌,
}
use netbird_minimal.SystemOps.RtTables.{
  opened, Files, find_entry, entry_exists, append_entry, add_routing_table_name,
}
use netbird_minimal.SystemOps.RtTables.Once.{FileLaws, add_routing_table_name-once}

abbrev added : Bool → List String
added true = "" ∷ "7120\tnetbird" ∷ []
added false = "7120\tnetbird" ∷ []

abbrev sample : Files
sample = record {
  World = List String × Bool;
  open_file = λ w. opened;
  seek = λ w. true;
  lines = λ w. w.0;
  scanned = λ w. true;
  scan_entry = λ l. if str_eq l "7120\tnetbird" then some (some 7120, "netbird") else none;
  open_append = λ w. (true, w);
  write_entry = λ w. (true, (w.0 ++ added w.1, true));
}

sample_laws : FileLaws sample
sample_laws = record {
  entry_line = "7120\tnetbird";
  entry_scans = refl;
  write_adds = λ w h. elim (Bool-cases w.1) [
    | inl t ↦ inr (ap (λ b. w.0 ++ added b) t)
    | inr t ↦ inl (ap (λ b. w.0 ++ added b) t)
  ];
  blank_scans = refl;
  write_open = λ w. refl;
  write_seek = λ w. refl;
  append_lines = λ w. refl;
  append_open = λ w. refl;
  append_seek = λ w. refl;
}

add_routing_table_name-once_example :
    add_routing_table_name sample (add_routing_table_name sample ("255\tlocal" ∷ [], true)).1
    ≡ (none, (add_routing_table_name sample ("255\tlocal" ∷ [], true)).1)
unfolding add_routing_table_name entry_exists find_entry append_entry
add_routing_table_name-once_example =
    add_routing_table_name-once sample sample_laws ("255\tlocal" ∷ [], true) refl

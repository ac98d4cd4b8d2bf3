-- ===== src/SystemOps/RtTables/Once.antt =====
-- addRoutingTableName of go/internal/routemanager/systemops/systemops_linux.go adds its entry once.
use netbird_minimal.Common.{
  String, ◌≡◌, refl, ◌∙◌, ap, Bool, true, Option, none, some, List, [], ◌∷◌, ◌++◌, arith, inl, inr,
  ◌⊎◌, Option-cases, Bool-cases,
}
use netbird_minimal.SystemOps.Types.{SysError, netbird_vpn_table_id}
use netbird_minimal.SystemOps.RtTables.{
  Opened, opened, absent, failed, Files, find_entry, entry_exists, append_entry,
  add_routing_table_name,
}

-- The documented behaviour of the file: the text that is written begins with an end of line, so that
-- it adds the entry's line, behind an empty one where the file was empty or ended with an end of
-- line, which does not scan; and the file that was opened can be opened and read again.
pub record FileLaws (files : Files) : Type 0 where
  pub entry_line : String
  pub entry_scans : files.scan_entry entry_line ≡ some (some netbird_vpn_table_id, "netbird")
  pub write_adds :
      (w : files.World)
      → (files.write_entry w).0 ≡ true
      → (files.lines (files.write_entry w).1 ≡ files.lines w ++ (entry_line ∷ []))
        ⊎ (files.lines (files.write_entry w).1 ≡ files.lines w ++ ("" ∷ entry_line ∷ []))
  pub blank_scans : files.scan_entry "" ≡ none
  pub write_open : (w : files.World) → files.open_file (files.write_entry w).1 ≡ files.open_file w
  pub write_seek : (w : files.World) → files.seek (files.write_entry w).1 ≡ files.seek w
  pub append_lines : (w : files.World) → files.lines (files.open_append w).1 ≡ files.lines w
  pub append_open : (w : files.World) → files.open_file (files.open_append w).1 ≡ files.open_file w
  pub append_seek : (w : files.World) → files.seek (files.open_append w).1 ≡ files.seek w

module _ (files : Files) (laws : FileLaws files) where
  open files use {World}

  -- Lines in front that do not have the entry.
  find_entry-append :
      (lines rest : List String)
      → find_entry files netbird_vpn_table_id lines ≡ none
      → find_entry files netbird_vpn_table_id (lines ++ rest)
        ≡ find_entry files netbird_vpn_table_id rest
  unfolding find_entry
  find_entry-append [] rest h = refl
  find_entry-append (l ∷ ls) rest h =
      ground (arith, find_entry-append ls rest (unfold find_entry in ground arith))

  entry-found : find_entry files netbird_vpn_table_id (laws.entry_line ∷ []) ≡ some (true, none)
  unfolding find_entry
  entry-found = ground (arith, laws.entry_scans)

  blank-found :
      find_entry files netbird_vpn_table_id ("" ∷ laws.entry_line ∷ []) ≡ some (true, none)
  unfolding find_entry
  blank-found = ground (arith, laws.blank_scans, laws.entry_scans)

  -- The entry is found in what was written.
  written-found :
      (w : World)
      → find_entry files netbird_vpn_table_id (files.lines w) ≡ none
      → (files.write_entry w).0 ≡ true
      → find_entry files netbird_vpn_table_id (files.lines (files.write_entry w).1)
        ≡ some (true, none)
  written-found w f h = elim (laws.write_adds w h) [
    | inl q ↦
        ap (find_entry files netbird_vpn_table_id) q
        ∙ find_entry-append (files.lines w) (laws.entry_line ∷ []) f
        ∙ entry-found
    | inr q ↦
        ap (find_entry files netbird_vpn_table_id) q
        ∙ find_entry-append (files.lines w) ("" ∷ laws.entry_line ∷ []) f
        ∙ blank-found
  ]

  find_entry-true :
      (lines : List String) (b : Bool) (e : Option SysError)
      → find_entry files netbird_vpn_table_id lines ≡ some (b, e)
      → b ≡ true
  unfolding find_entry
  find_entry-true [] b e h = ground arith
  find_entry-true (l ∷ ls) b e h = ground (
    arith,
    λ (r : find_entry files netbird_vpn_table_id ls ≡ some (b, e)). find_entry-true ls b e r,
  )

  -- A file that has the entry is left as it is.
  found-run :
      (v : World)
      → files.open_file v ≡ opened
      → files.seek v ≡ true
      → find_entry files netbird_vpn_table_id (files.lines v) ≡ some (true, none)
      → add_routing_table_name files v ≡ (none, v)
  unfolding add_routing_table_name entry_exists
  found-run v o s f = ground arith

  append-run :
      (w : World)
      → (append_entry files w).0 ≡ none
      → ((files.write_entry (files.open_append w).1).0 ≡ true)
        × ((append_entry files w).1 ≡ (files.write_entry (files.open_append w).1).1)
  unfolding append_entry
  append-run w h = ground arith

  append_entry-found :
      (w : World)
      → files.open_file w ≡ opened
      → files.seek w ≡ true
      → find_entry files netbird_vpn_table_id (files.lines w) ≡ none
      → (append_entry files w).0 ≡ none
      → add_routing_table_name files (append_entry files w).1 ≡ (none, (append_entry files w).1)
  append_entry-found w o s f h =
      let (written, same) = append-run w h in
      let w1 = (files.open_append w).1 in
      rw same (
        found-run (files.write_entry w1).1 (laws.write_open w1 ∙ laws.append_open w ∙ o)
          (laws.write_seek w1 ∙ laws.append_seek w ∙ s)
          (written-found w1 (ap (find_entry files netbird_vpn_table_id) (laws.append_lines w) ∙ f)
            written))

  -- A run without error changes nothing, or it appends the entry to a file without it.
  add-cases :
      (w : World)
      → (add_routing_table_name files w).0 ≡ none
      → ((add_routing_table_name files w).1 ≡ w)
        ⊎ ((files.open_file w ≡ opened)
            × (files.seek w ≡ true)
            × (find_entry files netbird_vpn_table_id (files.lines w) ≡ none)
            × (add_routing_table_name files w ≡ append_entry files w))
  unfolding add_routing_table_name entry_exists
  add-cases w h = elim (Option-cases (find_entry files netbird_vpn_table_id (files.lines w))) [
    | inr ((b, e), f) ↦ inl (ground (arith, find_entry-true (files.lines w) b e f))
    | inl f ↦ opened-cases (files.open_file w) refl f
  ]
    where
      opened-cases :
          (o : Opened)
          → files.open_file w ≡ o
          → find_entry files netbird_vpn_table_id (files.lines w) ≡ none
          → ((add_routing_table_name files w).1 ≡ w)
            ⊎ ((files.open_file w ≡ opened)
                × (files.seek w ≡ true)
                × (find_entry files netbird_vpn_table_id (files.lines w) ≡ none)
                × (add_routing_table_name files w ≡ append_entry files w))
      opened-cases absent o f = inl (ground arith)
      opened-cases failed o f = inl (ground arith)
      opened-cases opened o f = elim (Bool-cases (files.seek w)) [
        | inl s ↦ elim (Bool-cases (files.scanned w)) [
          | inl t ↦ inr (o, s, f, ground arith)
          | inr t ↦ inl (ground arith)
        ]
        | inr s ↦ inl (ground arith)
      ]

  -- After addRoutingTableName without error, a second call succeeds and changes nothing.
  pub add_routing_table_name-once :
      (w : World)
      → (add_routing_table_name files w).0 ≡ none
      → add_routing_table_name files (add_routing_table_name files w).1
        ≡ (none, (add_routing_table_name files w).1)
  add_routing_table_name-once w h = elim (add-cases w h) [
    | inl same ↦ rw same (pair_of h same)
    | inr (o, s, f, run) ↦ rw run (append_entry-found w o s f (rw run at h))
  ]
    where
      pair_of :
          (add_routing_table_name files w).0 ≡ none
          → (add_routing_table_name files w).1 ≡ w
          → add_routing_table_name files w ≡ (none, w)
      pair_of a b = ground arith

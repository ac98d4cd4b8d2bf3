-- ===== src/SystemOps/RtTables.antt =====
-- The entry of /etc/iproute2/rt_tables: entryExists and addRoutingTableName of
-- go/internal/routemanager/systemops/systemops_linux.go.
mod Tests
pub mod Once
use netbird_minimal.Common.{
  ℕ, String, Bool, true, false, not, Option, none, some, List, [], ◌∷◌, ◌==◌, if◌then◌else◌, str_eq,
}
use netbird_minimal.SystemOps.Types.{
  SysError, file_error, table_id_exists, context, netbird_vpn_table_id,
}

-- os.Open's answer for rtTablesPath
pub data Opened : Type 0 where
  opened absent failed : Opened

-- os, bufio and fmt.Sscanf as the two functions use them
pub record Files : Type 1 where
  pub World : Type 0
  pub open_file : World → Opened
  -- file.Seek to the start: whether it worked
  pub seek : World → Bool
  -- the lines that the scanner gives
  pub lines : World → List String
  -- whether scanner.Err is nil at the end
  pub scanned : World → Bool
  -- fmt.Sscanf(line, "%d %s\n"): the number, `none` for a negative one, and the name
  pub scan_entry : String → Option (Option ℕ × String)
  -- os.OpenFile to append: whether it worked
  pub open_append : World → Bool × World
  -- file.WriteString of "\n7120\tnetbird\n": whether it worked
  pub write_entry : World → Bool × World

-- the number on a line is this one
abbrev pub id_is : Option ℕ → ℕ → Bool
id_is none id = false
id_is (some n) id = n == id

module _ (files : Files) where
  open files use {World}

  -- the loop of entryExists: what it returns in the loop, `none` when it comes to the end
  unfoldable pub find_entry : ℕ → List String → Option (Bool × Option SysError)
  find_entry id [] = none
  find_entry id (line ∷ rest) =
      let later = find_entry id rest in
      elim (files.scan_entry line) [
        | none ↦ later
        | some (n, name) ↦
            if id_is n id
            then (if not (str_eq name "netbird")
                then some (true, some table_id_exists)
                else some (true, none))
            else later
      ]

  -- entryExists
  unfoldable pub entry_exists : ℕ → World → Bool × Option SysError
  entry_exists id w =
      if not (files.seek w)
      then (false, some (file_error "seek rt_tables"))
      else (elim (find_entry id (files.lines w)) [
        | some answer ↦ answer
        | none ↦
            if not (files.scanned w)
            then (false, some (file_error "scan rt_tables"))
            else (false, none)
      ])

  -- the second half of addRoutingTableName
  unfoldable pub append_entry : World → Option SysError × World
  append_entry w =
      let (can, w1) = files.open_append w in
      if not can
      then (some (file_error "open rt_tables for appending"), w1)
      else (let (done, w2) = files.write_entry w1 in
          if not done then (some (file_error "append entry to rt_tables"), w2) else (none, w2))

  -- addRoutingTableName
  unfoldable pub add_routing_table_name : World → Option SysError × World
  add_routing_table_name w = elim (files.open_file w) [
    | absent ↦ (none, w)
    | failed ↦ (some (file_error "open rt_tables"), w)
    | opened ↦
        let (exists, e) = entry_exists netbird_vpn_table_id w in
        elim e [
          | some x ↦ (some (context "verify entry" x), w)
          | none ↦ if exists then (none, w) else append_entry w
        ]
  ]

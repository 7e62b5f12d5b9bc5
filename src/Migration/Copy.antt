-- ===== src/Migration/Copy.antt =====
-- The copying of rows into another database: copyRows and MigrateSQLiteToPostgres of
-- internal/core/migrate.go. A row is its key and its other columns, as texts; the target is a map
-- from keys, and `ON CONFLICT DO NOTHING` leaves a key that it has. A call of the driver fails or not
-- as the arguments say; the reading of the rows ends with an error if `broken` says so.
pub mod Batches
use openspace_os_core.Base.{
  ℕ, zero, suc, ◌+◌, ◌-◌, ℤ, pos, pos_part, ltb_ℤ, String, Bool, true, false, not, Option, none,
  some, List, [], ◌∷◌, ◌++◌, if◌then◌else◌, ltb, leb, lookup, length,
}

abbrev pub Table : Type 0
Table = List (String × List String)

-- A cell as it is scanned.
pub data Cell : Type 0 where
  nil_cell : Cell
  text : String → Cell
  bytes : String → Cell
  other : String → Cell

-- `anyToString`; what `fmt.Sprint` makes of another value comes with it.
unfoldable pub any_to_string : Cell → String
any_to_string nil_cell = ""
any_to_string (text s) = s
any_to_string (bytes s) = s
any_to_string (other s) = s

-- The target: what is committed, and what the open transaction sees.
pub record Target : Type 0 where
  pub committed : Table
  pub working : Table

-- The counters, the rows in the transaction, and the target.
pub record CopyState : Type 0 where
  pub new_count : ℕ
  pub skipped : ℕ
  pub row_in_tx : ℕ
  pub target : Target

-- What copyRows leaves: whether it failed, the counters, and the committed rows.
pub record Copied : Type 0 where
  pub failed : Bool
  pub new_count : ℕ
  pub skipped : ℕ
  pub table : Table

-- What the driver does at the row of this number: the scan and the insert succeed, and the commit of
-- a batch with the new transaction after it does.
pub record CopyDriver : Type 0 where
  pub starts : Bool
  pub row_ok : ℕ → Bool
  pub commit_ok : ℕ → Bool
  pub reopen_ok : ℕ → Bool
  pub broken : Bool
  pub last_commit_ok : Bool

abbrev pub is_new : Table → String → Bool
is_new t k = elim (lookup k t) [ none ↦ true | some v ↦ false ]

abbrev pub rolled_back : CopyState → Copied
rolled_back s = record {
  failed = true;
  new_count = s.new_count;
  skipped = s.skipped;
  table = s.target.committed;
}

-- `prep.ExecContext` and the counting of what it did.
unfoldable pub exec_row : String × List String → CopyState → CopyState
exec_row (k, v) s =
    if is_new s.target.working k
    then record s {
      new_count = s.new_count + 1;
      row_in_tx = s.row_in_tx + 1;
      target = record s.target { working = s.target.working ++ ((k, v) ∷ []) };
    }
    else record s { skipped = s.skipped + 1; row_in_tx = s.row_in_tx + 1 }

abbrev pub commit : CopyState → CopyState
commit s = record s { row_in_tx = 0; target = record s.target { committed = s.target.working } }

abbrev pub start_state : Table → CopyState
start_state t = record {
  new_count = 0;
  skipped = 0;
  row_in_tx = 0;
  target = record { committed = t; working = t };
}

module _ (driver : CopyDriver) (batch : ℕ) where
  -- After the loop.
  unfoldable pub end_copy : CopyState → Copied
  end_copy s =
      if driver.broken
      then rolled_back s
      else if ltb 0 s.row_in_tx
      then (if driver.last_commit_ok
          then record (rolled_back (commit s)) { failed = false }
          else rolled_back s)
      else record (rolled_back s) { failed = false }

  -- The loop of copyRows from the row of this number on.
  unfoldable pub copy_from : ℕ → Table → CopyState → Copied
  copy_from i [] s = end_copy s
  copy_from i (r ∷ rs) s =
      let s' = exec_row r s in
      let next = copy_from (i + 1) rs (if leb batch s'.row_in_tx then commit s' else s') in
      if not (driver.row_ok i)
      then rolled_back s
      else if not (leb batch s'.row_in_tx)
      then next
      else if not (driver.commit_ok i)
      then rolled_back s'
      else if not (driver.reopen_ok i)
      then rolled_back (commit s')
      else next

  unfoldable pub copy_rows : Table → Table → Copied
  copy_rows rs t =
      if driver.starts then copy_from 0 rs (start_state t) else rolled_back (start_state t)

abbrev pub batch_size : ℤ → ℕ
batch_size z = if ltb_ℤ z (pos 1) then 500 else pos_part z

-- The two copies of MigrateSQLiteToPostgres, each with whether its rows can be read: the second is
-- made only after the first.
unfoldable pub migrate_graph :
    ℤ
    → CopyDriver
    → CopyDriver
    → Bool
    → Bool
    → Table
    → Table
    → Table
    → Table
    → Copied × Option Copied
migrate_graph size first second nodes_read rels_read nodes rels t u =
    let copied =
      if nodes_read
      then copy_rows first (batch_size size) nodes t
      else rolled_back (start_state t) in
    if copied.failed then (copied, none) else (
      copied,
      some (
          if rels_read
          then copy_rows second (batch_size size) rels u
          else rolled_back (start_state u)),
    )

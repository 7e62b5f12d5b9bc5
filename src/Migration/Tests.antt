-- ===== src/Migration/Tests.antt =====
-- The theorems on migrations at concrete inputs.
use openspace_os_core.Base.{◌≡◌, refl, String, true, false, some, List, [], ◌∷◌, ◌++◌, not, ◌==◌}
use openspace_os_core.Migration.{
  Migration, SchemaDb, Driver, split_statements, split_semicolons, filled,
}
use openspace_os_core.Migration.Copy.{Table, CopyDriver, copy_rows}
use openspace_os_core.Migration.Copy.Batches.{IsCopied, copy_rows-IsCopied}
use openspace_os_core.Event.Schema.{trim_left, trim_right}

-- A database that keeps its statements; the transaction of version 3 does not commit.
abbrev logging : Driver (List String)
logging = record {
  exec = λ s d. some (d ++ (s ∷ []));
  begins = λ v. true;
  records = λ v. true;
  commits = λ v. not (v == 3);
}

abbrev test_migrations : List Migration
test_migrations =
    record { version = 3; name = "c"; up = "C1; C2;" }
    ∷ record { version = 1; name = "a"; up = "A" }
    ∷ record { version = 2; name = "b"; up = "B" }
    ∷ []

abbrev test_db : SchemaDb (List String)
test_db = record { versions = record { version = 1; name = "a" } ∷ []; content = "A" ∷ [] }

test_split : split_statements "C1; C2; " ≡ "C1" ∷ "C2" ∷ []
unfolding split_statements split_semicolons filled trim_left trim_right
test_split = refl

-- The insert of the third row fails.
abbrev failing : CopyDriver
failing = record {
  starts = true;
  row_ok = λ i. not (i == 2);
  commit_ok = λ i. true;
  reopen_ok = λ i. true;
  broken = false;
  last_commit_ok = true;
}

abbrev test_rows : Table
test_rows = ("a", "1" ∷ []) ∷ ("b", "2" ∷ []) ∷ ("c", "3" ∷ []) ∷ []

copy_rows-IsCopied_example : IsCopied [] test_rows (copy_rows failing 2 test_rows [])
copy_rows-IsCopied_example = copy_rows-IsCopied failing 2 test_rows []

-- ===== src/Migration/Applied.antt =====
-- What a run of Migrate leaves (internal/storage/migrator.go).
use openspace_os_core.Base.{
  ◌≡◌, true, not, Option, none, some, List, [], ◌∷◌, ◌++◌, map, All, keep_if,
}
use openspace_os_core.Migration.{
  Migration, VersionRow, SchemaDb, Driver, MigrationError, Outcome, exec_all, split_statements,
  is_applied,
}

abbrev pub row_of : Migration → VersionRow
row_of m = record { version = m.version; name = m.name }

module _ {D : Type 0} (driver : Driver D) where
  -- The migrations' statements one after another.
  abbrev pub then_exec : Option D → (D → Option D) → Option D
  then_exec none f = none
  then_exec (some d) f = f d

  abbrev pub run_up : List Migration → D → Option D
  run_up [] d = some d
  run_up (m ∷ ms) d = then_exec (exec_all driver (split_statements m.up) d) (run_up ms)

  -- Of the migrations `ms` to be done on the database `d` some first ones are done in `o`, all of them
  -- if there is no error.
  pub record Done (ms : List Migration) (d : SchemaDb D) (o : Outcome D) : Type 0 where
    pub done : List Migration
    pub left : List Migration
    pub split : ms ≡ done ++ left
    pub rows : o.db.versions ≡ d.versions ++ map row_of done
    pub content : run_up done d.content ≡ some o.db.content
    pub complete : o.error ≡ none → left ≡ []

  -- One migration is done, or an error leaves everything as it was.
  data Applies (m : Migration) (d : SchemaDb D) (o : Outcome D) : Type 0 where
    refused : (e : MigrationError) → o.db ≡ d → o.error ≡ some e → Applies m d o
    accepted :
        o.error ≡ none
        → o.db.versions ≡ d.versions ++ (row_of m ∷ [])
        → exec_all driver (split_statements m.up) d.content ≡ some o.db.content
        → Applies m d o

  abbrev pub missing : List VersionRow → List Migration → List Migration
  missing applied = keep_if (λ m. not (is_applied m.version applied))

  -- Every migration of the list has its row.
  abbrev pub AllApplied : List Migration → List VersionRow → Type 0
  AllApplied ms rs = All (λ m. is_applied m.version rs ≡ true) ms

-- ===== src/Migration.antt =====
-- Schema migrations (internal/storage/migrator.go) and the copying of a graph from one database to
-- another (internal/core/migrate.go, in Migration/Copy). The database is a parameter: what a
-- statement does to its content, and which transactions fail to begin or to commit. A version is a
-- natural number; the time of a version's row and the placeholders of the driver are left out.
pub mod Order
pub mod Applied
pub mod Copy
pub mod Tests
use Prim.Native.Char.{Char, code}
use Prim.Native.String
use mathlib.Core.List.{reverse}
use openspace_os_core.Base.{
  ℕ, String, Bool, true, false, not, ◌&&◌, ◌||◌, Option, none, some, List, [], ◌∷◌, ◌++◌, map,
  str_eq, if◌then◌else◌, ltb, ◌==◌,
}
use openspace_os_core.Event.Schema.{trim_space}

pub record Migration : Type 0 where
  pub version : ℕ
  pub name : String
  pub up : String

-- A row of `schema_migrations`.
pub record VersionRow : Type 0 where
  pub version : ℕ
  pub name : String

-- The database: its version table and the rest of its content.
pub record SchemaDb (D : Type 0) : Type 0 where
  pub versions : List VersionRow
  pub content : D

pub record Driver (D : Type 0) : Type 0 where
  pub exec : String → D → Option D
  pub begins : ℕ → Bool
  pub records : ℕ → Bool
  pub commits : ℕ → Bool

pub data MigrationError : Type 0 where
  not_listed : MigrationError
  not_begun not_executed not_recorded not_committed : ℕ → MigrationError

-- `strings.Split(sql, ";")`: the first part and the others.
unfoldable pub split_semicolons : String → String × List String
split_semicolons String.[] = (String.[], [])
split_semicolons (String.◌∷◌ c s) =
    let (part, parts) = split_semicolons s in
    if code c == b';' then (String.[], part ∷ parts) else (String.◌∷◌ c part, parts)

unfoldable pub filled : List String → List String
filled [] = []
filled (s ∷ ss) = if str_eq (trim_space s) "" then filled ss else trim_space s ∷ filled ss

unfoldable pub split_statements : String → List String
split_statements sql = let (part, parts) = split_semicolons sql in filled (part ∷ parts)

-- The inner loop of `sortMigrations`: the migration sinks from the end of those before it, which
-- stand here from the last to the first.
unfoldable pub sink : Migration → List Migration → List Migration
sink m [] = m ∷ []
sink m (p ∷ ps) = if ltb m.version p.version then p ∷ sink m ps else m ∷ p ∷ ps

unfoldable pub sink_all : List Migration → List Migration → List Migration
sink_all before [] = before
sink_all before (m ∷ ms) = sink_all (sink m before) ms

unfoldable pub sort_migrations : List Migration → List Migration
sort_migrations ms = reverse (sink_all [] ms)

unfoldable pub is_applied : ℕ → List VersionRow → Bool
is_applied v [] = false
is_applied v (r ∷ rs) = if r.version == v then true else is_applied v rs

-- What a call leaves: the database, and its error.
pub record Outcome (D : Type 0) : Type 0 where
  pub db : SchemaDb D
  pub error : Option MigrationError

module _ {D : Type 0} (driver : Driver D) where
  -- The loop over the statements of a migration.
  unfoldable pub exec_all : List String → D → Option D
  exec_all [] d = some d
  exec_all (s ∷ ss) d = elim (driver.exec s d) [ none ↦ none | some d' ↦ exec_all ss d' ]

  abbrev pub failed : SchemaDb D → MigrationError → Outcome D
  failed d e = record { db = d; error = some e }

  abbrev pub recorded : Migration → SchemaDb D → Option D → Outcome D
  recorded m d none = failed d (not_executed m.version)
  recorded m d (some content) =
      if is_applied m.version d.versions || not (driver.records m.version)
      then failed d (not_recorded m.version)
      else if not (driver.commits m.version)
      then failed d (not_committed m.version)
      else record {
        db = record {
          versions = d.versions ++ (record { version = m.version; name = m.name } ∷ []);
          content = content;
        };
        error = none;
      }

  -- A transaction that fails at any point leaves the database as it was.
  unfoldable pub apply : Migration → SchemaDb D → Outcome D
  apply m d =
      if not (driver.begins m.version)
      then failed d (not_begun m.version)
      else recorded m d (exec_all (split_statements m.up) d.content)

  abbrev pub and_then : Outcome D → (SchemaDb D → Outcome D) → Outcome D
  and_then o f = elim o.error [ some e ↦ o | none ↦ f o.db ]

  -- The loop of `Migrate`; `applied` is what was read before it.
  unfoldable pub apply_all : List VersionRow → List Migration → SchemaDb D → Outcome D
  apply_all applied [] d = record { db = d; error = none }
  apply_all applied (m ∷ ms) d =
      let rest = apply_all applied ms in
      if is_applied m.version applied then rest d else and_then (apply m d) rest

  -- `Migrate`; `readable` says whether the version table can be made and read.
  unfoldable pub migrate : Bool → List Migration → SchemaDb D → Outcome D
  migrate readable ms d =
      if not readable then failed d not_listed else apply_all d.versions (sort_migrations ms) d

-- ===== src/Store/Sqlite/Trim.antt =====
-- What Cleanup of internal/core/event_store_sqlite.go leaves, and what it counts.
use openspace_os_core.Base.{
  ℕ, ◌≤◌, String, List, [], ◌∷◌, map, str_eq, if◌then◌else◌, count_if, suc,
}
use openspace_os_core.Store.{has_type}
use openspace_os_core.Store.Sqlite.{Row}

abbrev pub ids_of : List Row → List String
ids_of = map (λ r. r.event_id)

abbrev pub occurrences : String → List String → ℕ
occurrences i [] = 0
occurrences i (j ∷ js) = if str_eq j i then suc (occurrences i js) else occurrences i js

-- The primary key: no id stands in two rows.
abbrev pub IsKeyed : List Row → Type 0
IsKeyed rs = (i : String) → occurrences i (ids_of rs) ≤ 1

-- How many rows have one of the ids.
abbrev named : List String → List Row → ℕ
named is = count_if (λ r. has_type r.event_id is)

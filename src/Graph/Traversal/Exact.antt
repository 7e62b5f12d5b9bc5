-- ===== src/Graph/Traversal/Exact.antt =====
-- That the breadth-first `Traverse` of internal/core/rel_repo_sqlite.go finds just what it should.
use openspace_os_core.Base.{
  String, true, List, [], ◌∷◌, ◌≡◌, subst, All, arith, eq_iff, inl, inr, ◌↔◌, Bool-cases,
}
use openspace_os_core.Model.{Relationship}
use openspace_os_core.Graph.{Tables, Database, Answer}
use openspace_os_core.Graph.Relationships.{TraverseOptions, traverse}
use openspace_os_core.Graph.Rules.{IsRow, first, next, good, bad, Ends-weaken, OnTables, Rearranges}
use openspace_os_core.Graph.Consistent.{has_rel, DistinctRels}
use openspace_os_core.Graph.Traversal.{Found, direction_of, depth_of, row-All, traverse_lem}
use openspace_os_core.Graph.Traversal.Collected.Complete.{traverse-Finds}
use openspace_os_core.Graph.Traversal.Rows.{same_row}

ends-both :
    {A : Type 0} (Q R : A → Tables → Type 0) (E F : Tables → Type 0) {r : Answer A × Database}
    → OnTables Q E r
    → OnTables R F r
    → OnTables (λ a t. Q a t × R a t) E r
ends-both Q R E F (good h) (good k) = good (h, k)
ends-both Q R E F (bad h) k = bad h

has_rel-IsRow :
    (id : String) (rs : List Relationship)
    → has_rel id rs ≡ true
    → (r : Relationship) × IsRow r rs × (r.rel_id ≡ id)
has_rel-IsRow id [] h = absurd (ground arith)
has_rel-IsRow id (r ∷ rs) h = elim (Bool-cases (has_rel id rs)) [
  | inl later ↦ let (s, row, e) = has_rel-IsRow id rs later in (s, next row, e)
  | inr now ↦ (r, first, ground (arith, h, now, eq_iff r.rel_id id))
]

-- In tables where ids differ, a traversal leaves the tables, and when no call of the driver fails it
-- returns relationships with different ids: just those of the type asked for that lead, in the direction
-- asked for, from a node that fewer of them than the depth reach from the start. (`ORDER BY` only
-- rearranges rows.)
pub traverse_exact :
    {by_age : List Relationship → List Relationship} (sorts : Rearranges by_age) (start : String)
    (o : TraverseOptions) (d : Database)
    → DistinctRels d.tables.relationships
    → OnTables
        (λ rs u.
          (u ≡ d.tables)
          × DistinctRels rs
          × ((r : Relationship)
              → IsRow r rs
                ↔ Found (direction_of o) o.rel_type start d.tables.relationships (depth_of o) r))
        (λ u. u ≡ d.tables)
        (traverse by_age start o d)
traverse_exact {by_age} sorts start o d distinct =
    let Asked = Found (direction_of o) o.rel_type start d.tables.relationships (depth_of o) in
    let All_of =
      λ (rs : List Relationship). (r : Relationship) → Asked r → has_rel r.rel_id rs ≡ true in
    Ends-weaken
      (ends-both (λ rs u. (u ≡ d.tables) × DistinctRels rs × All Asked rs) (λ rs u. All_of rs)
        (λ u. u ≡ d.tables) (λ u. Unit {0}) (traverse_lem sorts start o d)
        (traverse-Finds sorts start o d distinct))
      (λ rs u ((same, differ, found), all). (
        same,
        differ,
        λ r. (
          (λ row. row-All Asked row found),
          λ f.
              let (s, row, e) = has_rel-IsRow r.rel_id rs (all r f) in
              let (n, id, less, here, there, way) = f in
              let (m, id', less', here', there', way') = row-All Asked row found in
              subst (λ x. IsRow x rs) (same_row s r d.tables.relationships distinct there' there e)
                row,
        ),
      ))
      (λ u h. h)

-- ===== src/Graph/Traversal.antt =====
-- What the breadth-first `Traverse` of internal/core/rel_repo_sqlite.go finds.
pub mod Rows
pub mod Collected
pub mod Exact
use openspace_os_core.Base.{
  ℕ, zero, suc, ◌+◌, ◌<◌, pos, pos_part, leb_ℤ, String, Bool, true, false, ◌&&◌, List, [], ◌∷◌,
  ◌++◌, ◌≡◌, refl, sym, subst, arith, str_eq, eq_iff, All, All-append, keep_if, if◌then◌else◌,
  if_cases, ◌⊎◌, ◌≢◌,
}
use openspace_os_core.Event.Schema.{contains}
use openspace_os_core.Model.{Relationship}
use openspace_os_core.Graph.{Tables, Database, Answer}
use openspace_os_core.Graph.Relationships.{
  of_type, leads, TraverseOptions, Walk, other_end, reach, collect, collect_all,
  query_for_traversal, expand, levels, traverse,
}
use openspace_os_core.Graph.Rules.{
  IsRow, first, next, good, Ends-and_then, OnTables, OnTables-statement, OnTables-driver_call,
  Rearranges,
}
use openspace_os_core.Graph.Consistent.{has_rel, DistinctRels, DistinctRels-append}

All-imp :
    {P Q : Relationship → Type 0} (rs : List Relationship)
    → ((r : Relationship) → P r → Q r)
    → All P rs
    → All Q rs
All-imp [] f h = tt
All-imp (r ∷ rs) f (p, h) = (f r p, All-imp rs f h)

All-rows :
    (P : Relationship → Type 0) (rs : List Relationship)
    → ((r : Relationship) → IsRow r rs → P r)
    → All P rs
All-rows P [] f = tt
All-rows P (r ∷ rs) f = (f r first, All-rows P rs (λ s h. f s (next h)))

row-All :
    (P : Relationship → Type 0) {r : Relationship} {rs : List Relationship}
    → IsRow r rs
    → All P rs
    → P r
row-All P first (p, h) = p
row-All P (next k) (_, h) = row-All P k h

IsRow-keep_if :
    (p : Relationship → Bool) (rs : List Relationship)
    → All (λ r. IsRow r rs × (p r ≡ true)) (keep_if p rs)
IsRow-keep_if p rs = go rs (All-rows (λ r. IsRow r rs) rs (λ _ h. h))
  where
    go :
        (ss : List Relationship)
        → All (λ r. IsRow r rs) ss
        → All (λ r. IsRow r rs × (p r ≡ true)) (keep_if p ss)
    go [] h = tt
    go (s ∷ ss) (row, h) =
        if_cases (All (λ r. IsRow r rs × (p r ≡ true))) (p s) (λ e. ((row, e), go ss h))
          (λ _. go ss h)

module _ (direction type start : String) (rels : List Relationship) where
  -- The traversal may go along the relationship from this node.
  abbrev Along : String → Relationship → Type 0
  Along id r = IsRow r rels × (leads direction id r ≡ true) × (of_type type r ≡ true)

  -- The relationship has the type, where one is given, and leads from one node to the other in the
  -- direction: from its source to its target unless the direction is "in", and from its target to its
  -- source if that is "in" or "both".
  abbrev pub Leads : String → Relationship → String → Type 0
  Leads id r other =
      ((type ≡ "") ⊎ (r.rel_type ≡ type))
      × (((direction ≢ "in") × (r.from_node_id ≡ id) × (r.to_node_id ≡ other))
          ⊎ (((direction ≡ "in") ⊎ (direction ≡ "both"))
              × (r.to_node_id ≡ id)
              × (r.from_node_id ≡ other)))

  Along-Leads : (id : String) (r : Relationship) → Along id r → Leads id r (other_end id r)
  unfolding leads
  Along-Leads id r (row, way, kind) = (
    ground (arith, kind, eq_iff r.rel_type type, eq_iff type ""),
    ground (
      arith,
      way,
      eq_iff direction "in",
      eq_iff direction "both",
      eq_iff r.from_node_id id,
      eq_iff r.to_node_id id,
    ),
  )

  -- A node at the end of a path with so many relationships.
  pub data Reached : ℕ → String → Type 0 where
    start_node : Reached 0 start
    over :
        {n : ℕ} {id other : String}
        → Reached n id
        → (r : Relationship) → IsRow r rels
        → Leads id r other
        → Reached (suc n) other

  -- A relationship that leads from a node which fewer than `depth` relationships reach.
  abbrev pub Found : ℕ → Relationship → Type 0
  Found depth r =
      (n : ℕ) × (id : String) × (n < depth)
      × Reached n id
      × IsRow r rels
      × ((other : String) × Leads id r other)

  record Sound (depth j : ℕ) (w : Walk) : Type 0 where
    distinct : DistinctRels w.result
    known : All (λ r. contains r.rel_id w.collected ≡ true) w.result
    found : All (Found depth) w.result
    next : All (Reached (suc j)) w.next_frontier

  unknown :
      (id : String) (cs : List String) (rs : List Relationship)
      → contains id cs ≡ false
      → All (λ r. contains r.rel_id cs ≡ true) rs
      → has_rel id rs ≡ false
  unknown id cs [] e h = refl
  unknown id cs (r ∷ rs) e (k, h) = ground (arith, unknown id cs rs e h, eq_iff r.rel_id id)

  matching-Along :
      (by_age : List Relationship → List Relationship)
      → Rearranges by_age
      → (id : String)
      → All (Along id) (by_age (keep_if (λ r. leads direction id r && of_type type r) rels))
  matching-Along by_age sorts id = All-rows (Along id) _ (λ r h.
      let (row, e) =
        row-All (λ r. IsRow r rels × ((leads direction id r && of_type type r) ≡ true))
          (sorts.rows _ r h) (IsRow-keep_if _ rels) in
      (row, ground (arith, e), ground (arith, e)))

  module _ (depth j : ℕ) (less : j < depth) where
    reach-Sound :
        (other : String) (w : Walk)
        → Reached (suc j) other
        → Sound depth j w
        → Sound depth j (reach other w)
    reach-Sound other w there s =
        if_cases (Sound depth j) (contains other w.visited) (λ _. s)
          (λ _. record {
            distinct = s.distinct;
            known = s.known;
            found = s.found;
            next = All-append (Reached (suc j)) w.next_frontier (other ∷ []) s.next (there, tt);
          })

    collect-Sound :
        (id : String) (r : Relationship) (w : Walk)
        → Reached j id
        → Along id r
        → Sound depth j w
        → Sound depth j (collect id r w)
    unfolding collect contains
    collect-Sound id r w here along s =
        if_cases (Sound depth j) (contains r.rel_id w.collected) (λ _. s)
          (λ e.
            reach-Sound (other_end id r)
              (record w { collected = r.rel_id ∷ w.collected; result = w.result ++ (r ∷ []) })
              (over here r along.0 (Along-Leads id r along))
              (record {
                distinct =
                    DistinctRels-append w.result r s.distinct
                      (unknown r.rel_id w.collected w.result e s.known);
                known =
                    All-append _ w.result (r ∷ [])
                      (All-imp w.result (λ x k. ground (arith, k)) s.known)
                      (ground (arith, eq_iff r.rel_id r.rel_id), tt);
                found =
                    All-append (Found depth) w.result (r ∷ []) s.found
                      ((j, id, less, here, along.0, (other_end id r, Along-Leads id r along)), tt);
                next = s.next;
              }))

    collect_all-Sound :
        (id : String) (rs : List Relationship) (w : Walk)
        → Reached j id
        → All (Along id) rs
        → Sound depth j w
        → Sound depth j (collect_all id rs w)
    unfolding collect_all
    collect_all-Sound id [] w here h s = s
    collect_all-Sound id (r ∷ rs) w here (along, h) s =
        collect_all-Sound id rs (collect id r w) here h (collect-Sound id r w here along s)

module _ (direction type start : String) {by_age : List Relationship → List Relationship}
    (sorts : Rearranges by_age) (t : Tables) (depth : ℕ) where
  -- The walk so far, in tables that are as they were.
  abbrev Goes : ℕ → Answer Walk × Database → Type 0
  Goes j =
      OnTables (λ w u. (u ≡ t) × Sound direction type start t.relationships depth j w) (λ u. u ≡ t)

  query-Along :
      (id : String) (d : Database)
      → d.tables ≡ t
      → OnTables
          (λ rs u. (u ≡ t) × All (Along direction type start t.relationships id) rs)
          (λ u. u ≡ t)
          (query_for_traversal by_age direction type id d)
  unfolding query_for_traversal
  query-Along id d same = OnTables-statement _ d same (
      good (
        same,
        subst
            (λ (u : Tables).
              All (Along direction type start t.relationships id)
                (by_age (keep_if (λ r. leads direction id r && of_type type r) u.relationships)))
            (sym same) (matching-Along direction type start t.relationships by_age sorts id),
      ))

  expand-Goes :
      (j : ℕ) (less : j < depth) (ids : List String) (w : Walk) (d : Database)
      → d.tables ≡ t
      → All (Reached direction type start t.relationships j) ids
      → Sound direction type start t.relationships depth j w
      → Goes j (expand by_age direction type ids w d)
  unfolding expand
  expand-Goes j less [] w d same h s = good (same, s)
  expand-Goes j less (id ∷ ids) w d same (here, h) s =
      Ends-and_then _ (query-Along id d same) (λ rs e (same', along).
        expand-Goes j less ids (collect_all id rs w) e same' h (
          collect_all-Sound direction type start t.relationships depth j less id rs w here along s))

  abbrev Done : Answer Walk × Database → Type 0
  Done =
      OnTables
        (λ w u.
          (u ≡ t)
          × DistinctRels w.result
          × All (Found direction type start t.relationships depth) w.result)
        (λ u. u ≡ t)

  levels-Done :
      (rounds j : ℕ) (ids : List String) (w : Walk) (d : Database)
      → d.tables ≡ t
      → j + rounds ≡ depth
      → All (Reached direction type start t.relationships j) ids
      → DistinctRels w.result
      → All (λ r. contains r.rel_id w.collected ≡ true) w.result
      → All (Found direction type start t.relationships depth) w.result
      → Done (levels by_age direction type rounds ids w d)
  unfolding levels
  levels-Done zero j ids w d same e h distinct known found = good (same, distinct, found)
  levels-Done (suc n) j [] w d same e h distinct known found = good (same, distinct, found)
  levels-Done (suc n) j (id ∷ ids) w d same e h distinct known found =
      Ends-and_then _
        (expand-Goes j (omega arith) (id ∷ ids) (record w { next_frontier = [] }) d same h
          (record { distinct = distinct; known = known; found = found; next = tt }))
        (λ w' d' (same', s).
          levels-Done n (suc j) w'.next_frontier w' d' same' (omega arith) s.next s.distinct s.known
            s.found)

abbrev pub direction_of : TraverseOptions → String
direction_of o = if str_eq o.direction "" then "out" else o.direction

abbrev pub depth_of : TraverseOptions → ℕ
depth_of o = if leb_ℤ o.max_depth (pos 0) then 1 else pos_part o.max_depth

-- A traversal leaves the tables, and when no call of the driver fails it returns relationships with
-- different ids, each of the type and direction asked for and from a node that fewer of them than the
-- depth reach from the start. (`ORDER BY` only rearranges rows.)
pub traverse_lem :
    {by_age : List Relationship → List Relationship} (sorts : Rearranges by_age) (start : String)
    (o : TraverseOptions) (d : Database)
    → OnTables
        (λ rs u.
          (u ≡ d.tables)
          × DistinctRels rs
          × All (Found (direction_of o) o.rel_type start d.tables.relationships (depth_of o)) rs)
        (λ u. u ≡ d.tables)
        (traverse by_age start o d)
unfolding traverse
traverse_lem sorts start o d = Ends-and_then _ (OnTables-driver_call d) (λ _ e same.
    Ends-and_then _
      (levels-Done (direction_of o) o.rel_type start sorts d.tables (depth_of o) (depth_of o) 0
        (start ∷ [])
        (record { visited = start ∷ []; collected = []; result = []; next_frontier = [] }) e same
        (omega arith) (start_node, tt) tt tt tt)
      (λ w e' h. good h))

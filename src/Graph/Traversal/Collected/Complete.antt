-- ===== src/Graph/Traversal/Collected/Complete.antt =====
-- That the breadth-first `Traverse` of internal/core/rel_repo_sqlite.go misses nothing.
use openspace_os_core.Base.{
  ℕ, zero, suc, ◌+◌, ◌<◌, ◌≤◌, String, true, ◌&&◌, List, [], ◌∷◌, ◌≡◌, sym, subst, All, arith,
  eq_iff, inl, inr, keep_if,
}
use openspace_os_core.Event.Schema.{contains}
use openspace_os_core.Model.{Relationship}
use openspace_os_core.Graph.{Tables, Database}
use openspace_os_core.Graph.Relationships.{
  of_type, leads, TraverseOptions, Walk, collect_all, query_for_traversal, expand, levels, traverse,
}
use openspace_os_core.Graph.Rules.{
  IsRow, good, Ends-and_then, Ends-weaken, OnTables, OnTables-statement, OnTables-driver_call,
  Rearranges,
}
use openspace_os_core.Graph.Consistent.{has_rel, DistinctRels}
use openspace_os_core.Graph.Traversal.{
  Along, matching-Along, Leads, Reached, start_node, over, Found, direction_of, depth_of,
}
use openspace_os_core.Graph.Traversal.Collected.{
  Processed, Closed, Grows, collect_all-Collects, Leads-leads, next_pending, tips_of,
}
use openspace_os_core.Graph.Traversal.Rows.{In, kept-has_rel, sorted-has_rel}

module _ (direction type start : String) {by_age : List Relationship → List Relationship}
    (sorts : Rearranges by_age) (t : Tables) (distinct : DistinctRels t.relationships) where
  abbrev rels : List Relationship
  rels = t.relationships

  abbrev IsClosed : List String → List String → Walk → Type 0
  IsClosed = Closed direction type start rels distinct

  abbrev IsProcessed : Walk → String → Type 0
  IsProcessed = Processed direction type start rels distinct

  abbrev Grown : Walk → Walk → Type 0
  Grown = Grows direction type start rels distinct

  -- The query finds all that leads from the node.
  abbrev IsFull : String → List Relationship → Type 0
  IsFull id rs =
      All (Along direction type start rels id) rs
      × ((r : Relationship)
          → IsRow r rels
          → (other : String) → Leads direction type start rels id r other
          → has_rel r.rel_id rs ≡ true)

  query-IsFull :
      (id : String) (d : Database)
      → d.tables ≡ t
      → OnTables
          (λ rs u. (u ≡ t) × IsFull id rs)
          (λ u. Unit {0})
          (query_for_traversal by_age direction type id d)
  unfolding query_for_traversal
  query-IsFull id d same = OnTables-statement _ d tt (
      good (
        same,
        subst
            (λ (u : Tables).
              IsFull id
                (by_age (keep_if (λ r. leads direction id r && of_type type r) u.relationships)))
            (sym same)
            (
              matching-Along direction type start rels by_age sorts id,
              λ r row other way. sorted-has_rel r.rel_id sorts _ (
                  kept-has_rel _ row
                    (Leads-leads direction type start rels distinct id other r way)),
            ),
      ))

  expand-IsClosed :
      (base ids : List String) (w : Walk) (d : Database)
      → d.tables ≡ t
      → IsClosed base ids w
      → ((x : String) → In x ids → In x w.visited)
      → OnTables
          (λ v u. (u ≡ t) × IsClosed base [] v × Grown w v)
          (λ u. Unit {0})
          (expand by_age direction type ids w d)
  unfolding expand contains
  expand-IsClosed base [] w d same c h =
      good (same, c, record { visited = λ x k. k; collected = λ x k. k })
  expand-IsClosed base (id ∷ ids) w d same c h =
      Ends-and_then _ (query-IsFull id d same) (λ rs e (same', (along, all)).
        let here = h id (ground (arith, eq_iff id id)) in
        let done =
          collect_all-Collects direction type start rels distinct base (id ∷ ids) id rs w c here
            along in
        let c' =
          next_pending direction type start rels distinct base ids id (collect_all id rs w)
            done.closed (λ r row other way. done.got r.rel_id (all r row other way)) in
        Ends-weaken
          (expand-IsClosed base ids (collect_all id rs w) e same' c'
            (λ x k. done.grows.visited x (h x (ground (arith, k)))))
          (λ v u (same'', c'', g). (
            same'',
            c'',
            record {
              visited = λ x k. g.visited x (done.grows.visited x k);
              collected = λ x k. g.collected x (done.grows.collected x k);
            },
          ))
          (λ u k. k))

  -- Before the round after `j` rounds: what fewer relationships reach is done with.
  record Level (j : ℕ) (ids : List String) (w : Walk) : Type 0 where
    closed : IsClosed w.visited ids (record w { next_frontier = [] })
    seen : (x : String) → In x ids → In x w.visited
    near : (n : ℕ) (x : String) → n ≤ j → Reached direction type start rels n x → In x w.visited
    full : (n : ℕ) (x : String) → n < j → Reached direction type start rels n x → IsProcessed w x

  -- Both ends of what leads from a node that is done with have been visited.
  over-visited :
      (base pending : List String) (v : Walk)
      → IsClosed base pending v
      → (id other : String) (r : Relationship) → IsRow r rels
      → Leads direction type start rels id r other
      → IsProcessed v id
      → In other v.visited
  over-visited base pending v c id other r row way p =
      let ends = c.ends r row (p r row other way) in
      elim (tips_of direction type start rels distinct id other r way) [
        | inl (_, b) ↦ subst (λ y. In y v.visited) b ends.1
        | inr (_, b) ↦ subst (λ y. In y v.visited) b ends.0
      ]

  -- Without a frontier all that is visited is done with.
  closed-Processed :
      (w : Walk)
      → IsClosed w.visited [] (record w { next_frontier = [] })
      → (x : String) → In x w.visited
      → IsProcessed w x
  unfolding contains
  closed-Processed w c x h = elim (c.done x h) [
    | inl k ↦ absurd (ground (arith, k))
    | inr k ↦ elim k [ inl (unseen, _) ↦ absurd (ground (arith, unseen, h)) | inr p ↦ p ]
  ]

  all_visited :
      (w : Walk)
      → IsClosed w.visited [] (record w { next_frontier = [] })
      → In start w.visited
      → (n : ℕ) (x : String) → Reached direction type start rels n x
      → In x w.visited
  all_visited w c s n x start_node = s
  all_visited w c s k x (over {n} {id} here r row way) =
      over-visited w.visited [] (record w { next_frontier = [] }) c id x r row way
        (closed-Processed w c id (all_visited w c s n id here))

  at_start :
      (n : ℕ) (x : String) → n ≤ 0 → Reached direction type start rels n x → In x (start ∷ [])
  unfolding contains
  at_start n x less start_node = ground (arith, eq_iff start start)
  at_start n x less (over here r row way) = absurd (omega arith)

  first-Level :
      Level 0
        (start ∷ [])
        (record { visited = start ∷ []; collected = []; result = []; next_frontier = [] })
  unfolding contains
  first-Level = record {
    closed = record {
      listed = λ x h. absurd (ground (arith, h));
      ends = λ r row h. absurd (ground (arith, h));
      queued = λ x h. absurd (ground (arith, h));
      known = λ x h. h;
      done = λ x h. inl h;
    };
    seen = λ x h. h;
    near = at_start;
    full = λ n x less here. absurd (omega arith);
  }

  module _ (depth : ℕ) where
    abbrev Finds : Walk → Type 0
    Finds w =
        (r : Relationship)
        → Found direction type start rels depth r
        → has_rel r.rel_id w.result ≡ true

    finds :
        (w : Walk) (base pending : List String)
        → IsClosed base pending (record w { next_frontier = [] })
        → ((n : ℕ) (x : String)
            → n < depth
            → Reached direction type start rels n x
            → IsProcessed w x)
        → Finds w
    finds w base pending c full r (n, id, less, here, row, (other, way)) =
        c.listed r.rel_id (full n id less here r row other way)

    round-Level :
        (j : ℕ) (ids : List String) (w v : Walk)
        → Level j ids w
        → IsClosed w.visited [] v
        → Level (suc j) v.next_frontier v
    unfolding contains
    round-Level j ids w v l c = record {
      closed = record {
        listed = c.listed;
        ends = c.ends;
        queued = λ x k. absurd (ground (arith, k));
        known = λ x k. k;
        done = λ x k. elim (c.done x k) [
          | inl none_left ↦ absurd (ground (arith, none_left))
          | inr m ↦ elim m [ inl (_, q) ↦ inl q | inr p ↦ inr (inr p) ]
        ];
      };
      seen = c.queued;
      near = near;
      full = full;
    }
      where
        full :
            (n : ℕ) (x : String)
            → n < suc j
            → Reached direction type start rels n x
            → IsProcessed v x
        full n x less here =
            let old = l.near n x (omega arith) here in
            elim (c.done x (c.known x old)) [
              | inl none_left ↦ absurd (ground (arith, none_left))
              | inr m ↦ elim m [
                | inl (unseen, _) ↦ absurd (ground (arith, unseen, old))
                | inr p ↦ p
              ]
            ]

        near :
            (n : ℕ) (x : String)
            → n ≤ suc j
            → Reached direction type start rels n x
            → In x v.visited
        near n x less start_node = c.known start (l.near 0 start (omega arith) start_node)
        near k x less (over {n} {id} here r row way) =
            over-visited w.visited [] v c id x r row way (full n id (omega arith) here)

    levels-Finds :
        (rounds j : ℕ) (ids : List String) (w : Walk) (d : Database)
        → d.tables ≡ t
        → j + rounds ≡ depth
        → Level j ids w
        → OnTables (λ v u. Finds v) (λ u. Unit {0}) (levels by_age direction type rounds ids w d)
    unfolding levels
    levels-Finds zero j ids w d same e l =
        good (finds w w.visited ids l.closed (λ n x less. l.full n x (omega arith)))
    levels-Finds (suc rounds) j [] w d same e l =
        let s = l.near 0 start (omega arith) start_node in
        good (
          finds w w.visited [] l.closed
            (λ n x less here. closed-Processed w l.closed x (all_visited w l.closed s n x here)))
    levels-Finds (suc rounds) j (id ∷ ids) w d same e l =
        Ends-and_then _
          (expand-IsClosed w.visited (id ∷ ids) (record w { next_frontier = [] }) d same l.closed
            l.seen)
          (λ v d' (same', c, g).
            levels-Finds rounds (suc j) v.next_frontier v d' same' (omega arith)
              (round-Level j (id ∷ ids) w v l c))

-- Nothing that was asked for is left out.
pub traverse-Finds :
    {by_age : List Relationship → List Relationship} (sorts : Rearranges by_age) (start : String)
    (o : TraverseOptions) (d : Database)
    → DistinctRels d.tables.relationships
    → OnTables
        (λ rs u.
          (r : Relationship)
          → Found (direction_of o) o.rel_type start d.tables.relationships (depth_of o) r
          → has_rel r.rel_id rs ≡ true)
        (λ u. Unit {0})
        (traverse by_age start o d)
unfolding traverse contains
traverse-Finds sorts start o d distinct =
    Ends-and_then _ (Ends-weaken (OnTables-driver_call d) (λ _ u h. h) (λ _ h. tt)) (λ _ e same.
      Ends-and_then _
        (levels-Finds (direction_of o) o.rel_type start sorts d.tables distinct (depth_of o)
          (depth_of o) 0 (start ∷ [])
          (record { visited = start ∷ []; collected = []; result = []; next_frontier = [] }) e same
          (omega arith) (first-Level (direction_of o) o.rel_type start sorts d.tables distinct))
        (λ w e' h. good h))

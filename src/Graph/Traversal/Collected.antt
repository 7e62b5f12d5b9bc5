-- ===== src/Graph/Traversal/Collected.antt =====
-- What the innermost loop of `Traverse` (internal/core/rel_repo_sqlite.go) leaves collected and visited.
pub mod Complete
use openspace_os_core.Base.{
  ℕ, zero, suc, ◌+◌, ◌<◌, ◌≤◌, String, Bool, true, false, ◌&&◌, List, [], ◌∷◌, ◌++◌, ◌≡◌, ◌≢◌, refl,
  sym, subst, All, arith, str_eq, eq_iff, keep_if, count_if, if_cases, inl, inr, ◌⊎◌, Bool-cases,
}
use openspace_os_core.Event.Schema.{contains}
use openspace_os_core.Model.{Relationship}
use openspace_os_core.Graph.{Tables, Database, Answer}
use openspace_os_core.Graph.Relationships.{
  of_type, leads, TraverseOptions, Walk, other_end, reach, collect, collect_all,
  query_for_traversal, expand, levels, traverse,
}
use openspace_os_core.Graph.Rules.{
  IsRow, first, next, good, Ends-and_then, OnTables, OnTables-statement, OnTables-driver_call,
  Rearranges,
}
use openspace_os_core.Graph.Consistent.{has_rel, DistinctRels}
use openspace_os_core.Graph.Traversal.{
  Along, Along-Leads, matching-Along, Leads, Reached, start_node, over, Found, direction_of,
  depth_of,
}
use openspace_os_core.Graph.Traversal.Rows.{
  In, In-snoc, In-snoc_inv, In-last, has_rel-snoc, has_rel-last, same_row, kept-has_rel,
  sorted-has_rel,
}

module _ (direction type start : String) (rels : List Relationship)
    (distinct : DistinctRels rels) where
  abbrev Goes : String → Relationship → String → Type 0
  Goes = Leads direction type start rels

  -- All that leads from the node has been collected.
  abbrev Processed : Walk → String → Type 0
  Processed w id =
      (r : Relationship)
      → IsRow r rels
      → (other : String) → Goes id r other
      → In r.rel_id w.collected

  -- A walk in a round that began with the nodes `base`, of which `pending` are still to come.
  record Closed (base pending : List String) (w : Walk) : Type 0 where
    listed : (x : String) → In x w.collected → has_rel x w.result ≡ true
    ends :
        (r : Relationship)
        → IsRow r rels
        → In r.rel_id w.collected
        → In r.from_node_id w.visited × In r.to_node_id w.visited
    queued : (x : String) → In x w.next_frontier → In x w.visited
    known : (x : String) → In x base → In x w.visited
    done :
        (x : String)
        → In x w.visited
        → In x pending ⊎ (((contains x base ≡ false) × In x w.next_frontier) ⊎ Processed w x)

  -- What is added to a walk.
  record Grows (w v : Walk) : Type 0 where
    visited : (x : String) → In x w.visited → In x v.visited
    collected : (x : String) → In x w.collected → In x v.collected

  reach-Closed :
      (base pending : List String) (other : String) (r : Relationship) (w : Walk)
      → Closed base pending w
      → IsRow r rels
      → (id : String) → In id w.visited
      → ((r.from_node_id ≡ id) × (r.to_node_id ≡ other))
        ⊎ ((r.to_node_id ≡ id) × (r.from_node_id ≡ other))
      → Closed base pending (
          reach other
            (record w { collected = r.rel_id ∷ w.collected; result = w.result ++ (r ∷ []) }))
  unfolding contains
  reach-Closed base pending other r w c row id here tips =
      if_cases (Closed base pending) (contains other w.visited)
        (λ old. record {
          listed = listed;
          ends = λ s srow h. ends_of w.visited old (λ x k. k) s srow h;
          queued = c.queued;
          known = c.known;
          done = λ x h. done_old x (c.done x h);
        })
        (λ new. record {
          listed = listed;
          ends = λ s srow h.
              ends_of (other ∷ w.visited) (ground (arith, eq_iff other other))
                (λ x k. ground (arith, k)) s srow h;
          queued = λ x h. queued x h;
          known = λ x h. ground (arith, c.known x h);
          done = λ x h. elim (Bool-cases (contains x w.visited)) [
            | inl old ↦ done_more x (c.done x old)
            | inr fresh ↦
                let same : other ≡ x = ground (arith, h, fresh, eq_iff other x) in
                inr (
                  inl (
                    unbased x fresh,
                    subst (λ y. In y (w.next_frontier ++ (other ∷ []))) same
                        (In-last other w.next_frontier),
                  ))
          ];
        })
    where
      listed :
          (x : String) → In x (r.rel_id ∷ w.collected) → has_rel x (w.result ++ (r ∷ [])) ≡ true
      listed x h = elim (Bool-cases (str_eq r.rel_id x)) [
        | inl e ↦
            subst (λ y. has_rel y (w.result ++ (r ∷ [])) ≡ true) ((eq_iff r.rel_id x).0 e)
              (has_rel-last r w.result)
        | inr e ↦ has_rel-snoc x r w.result (c.listed x (ground (arith, h, e)))
      ]

      queued : (x : String) → In x (w.next_frontier ++ (other ∷ [])) → In x (other ∷ w.visited)
      queued x h = ground (arith, In-snoc_inv x other w.next_frontier h, c.queued x, eq_iff other x)

      unbased : (x : String) → contains x w.visited ≡ false → contains x base ≡ false
      unbased x fresh = elim (Bool-cases (contains x base)) [
        | inl h ↦ absurd (ground (arith, c.known x h, fresh))
        | inr h ↦ h
      ]

      both : (vs : List String) → In other vs → In id vs → In r.from_node_id vs × In r.to_node_id vs
      both vs there near = elim tips [
        | inl (a, b) ↦ (subst (λ y. In y vs) (sym a) near, subst (λ y. In y vs) (sym b) there)
        | inr (a, b) ↦ (subst (λ y. In y vs) (sym b) there, subst (λ y. In y vs) (sym a) near)
      ]

      ends_of :
          (vs : List String)
          → In other vs
          → ((x : String) → In x w.visited → In x vs)
          → (s : Relationship) → IsRow s rels
          → In s.rel_id (r.rel_id ∷ w.collected)
          → In s.from_node_id vs × In s.to_node_id vs
      ends_of vs there more s srow h = elim (Bool-cases (str_eq r.rel_id s.rel_id)) [
        | inl e ↦
            let same : r ≡ s =
              same_row r s rels distinct row srow ((eq_iff r.rel_id s.rel_id).0 e) in
            subst (λ (y : Relationship). In y.from_node_id vs × In y.to_node_id vs) same
              (both vs there (more id here))
        | inr e ↦ let old = c.ends s srow (ground (arith, h, e)) in (more _ old.0, more _ old.1)
      ]

      processed_old :
          (x : String)
          → Processed w x
          → (s : Relationship) → IsRow s rels
          → (o : String) → Goes x s o
          → In s.rel_id (r.rel_id ∷ w.collected)
      processed_old x k s srow o g = ground (arith, k s srow o g)

      done_old :
          (x : String)
          → In x pending ⊎ (((contains x base ≡ false) × In x w.next_frontier) ⊎ Processed w x)
          → In x pending
            ⊎ (((contains x base ≡ false) × In x w.next_frontier)
                ⊎ ((s : Relationship)
                    → IsRow s rels
                    → (o : String) → Goes x s o
                    → In s.rel_id (r.rel_id ∷ w.collected)))
      done_old x (inl h) = inl h
      done_old x (inr (inl h)) = inr (inl h)
      done_old x (inr (inr h)) = inr (inr (processed_old x h))

      done_more :
          (x : String)
          → In x pending ⊎ (((contains x base ≡ false) × In x w.next_frontier) ⊎ Processed w x)
          → In x pending
            ⊎ (((contains x base ≡ false) × In x (w.next_frontier ++ (other ∷ [])))
                ⊎ ((s : Relationship)
                    → IsRow s rels
                    → (o : String) → Goes x s o
                    → In s.rel_id (r.rel_id ∷ w.collected)))
      done_more x (inl h) = inl h
      done_more x (inr (inl (a, h))) = inr (inl (a, In-snoc x other w.next_frontier h))
      done_more x (inr (inr h)) = inr (inr (processed_old x h))

  reach-Grows : (other : String) (w : Walk) → Grows w (reach other w)
  unfolding contains
  reach-Grows other w =
      if_cases (Grows w) (contains other w.visited)
        (λ _. record { visited = λ x h. h; collected = λ x h. h })
        (λ _. record { visited = λ x h. ground (arith, h); collected = λ x h. h })

  reach-collected :
      (x other : String) (w : Walk) → In x w.collected → In x (reach other w).collected
  reach-collected x other w h = (reach-Grows other w).collected x h

  -- The relationships have been collected, from a node that was visited.
  record Collects (base pending : List String) (rs : List Relationship) (w v : Walk) : Type 0 where
    closed : Closed base pending v
    grows : Grows w v
    got : (x : String) → has_rel x rs ≡ true → In x v.collected

  tips_of :
      (id other : String) (r : Relationship)
      → Goes id r other
      → ((r.from_node_id ≡ id) × (r.to_node_id ≡ other))
        ⊎ ((r.to_node_id ≡ id) × (r.from_node_id ≡ other))
  tips_of id other r (kind, inl (way, a, b)) = inl (a, b)
  tips_of id other r (kind, inr (way, a, b)) = inr (a, b)

  collect-Collects :
      (base pending : List String) (id : String) (r : Relationship) (w : Walk)
      → Closed base pending w
      → In id w.visited
      → Along direction type start rels id r
      → Collects base pending (r ∷ []) w (collect id r w)
  unfolding collect contains
  collect-Collects base pending id r w c here along =
      if_cases (Collects base pending (r ∷ []) w) (contains r.rel_id w.collected)
        (λ old. record {
          closed = c;
          grows = record { visited = λ x h. h; collected = λ x h. h };
          got = λ x h. subst (λ y. In y w.collected) (only x h) old;
        })
        (λ new.
          let added = record w {
            collected = r.rel_id ∷ w.collected;
            result = w.result ++ (r ∷ []);
          } in
          let g = reach-Grows (other_end id r) added in
          record {
            closed =
                reach-Closed base pending (other_end id r) r w c along.0 id here (
                  tips_of id (other_end id r) r (Along-Leads direction type start rels id r along));
            grows = record {
              visited = g.visited;
              collected = λ x h. g.collected x (ground (arith, h));
            };
            got = λ x h. g.collected x (ground (arith, only x h, eq_iff r.rel_id x));
          })
    where
      only : (x : String) → has_rel x (r ∷ []) ≡ true → r.rel_id ≡ x
      only x h = (eq_iff r.rel_id x).0 (ground (arith, h))

  collect_all-Collects :
      (base pending : List String) (id : String) (rs : List Relationship) (w : Walk)
      → Closed base pending w
      → In id w.visited
      → All (Along direction type start rels id) rs
      → Collects base pending rs w (collect_all id rs w)
  unfolding collect_all
  collect_all-Collects base pending id [] w c here h = record {
    closed = c;
    grows = record { visited = λ x k. k; collected = λ x k. k };
    got = λ x k. absurd (ground (arith, k));
  }
  collect_all-Collects base pending id (r ∷ rs) w c here (along, h) =
      let one = collect-Collects base pending id r w c here along in
      let more =
        collect_all-Collects base pending id rs (collect id r w) one.closed
          (one.grows.visited id here) h in
      record {
        closed = more.closed;
        grows = record {
          visited = λ x k. more.grows.visited x (one.grows.visited x k);
          collected = λ x k. more.grows.collected x (one.grows.collected x k);
        };
        got = λ x k. elim (Bool-cases (has_rel x rs)) [
          | inl later ↦ more.got x later
          | inr now ↦ more.grows.collected x (one.got x (ground (arith, k, now)))
        ];
      }

  Leads-leads :
      (id other : String) (r : Relationship)
      → Goes id r other
      → (leads direction id r && of_type type r) ≡ true
  unfolding leads
  Leads-leads id other r (kind, way) = ground (
    arith,
    kind,
    way,
    eq_iff r.rel_type type,
    eq_iff type "",
    eq_iff direction "in",
    eq_iff direction "both",
    eq_iff r.from_node_id id,
    eq_iff r.to_node_id id,
  )

  -- The node is done with once what the query finds for it has been collected.
  next_pending :
      (base ids : List String) (id : String) (w : Walk)
      → Closed base (id ∷ ids) w
      → Processed w id
      → Closed base ids w
  unfolding contains
  next_pending base ids id w c p = record {
    listed = c.listed;
    ends = c.ends;
    queued = c.queued;
    known = c.known;
    done = λ x h. elim (c.done x h) [
      | inl k ↦ elim (Bool-cases (str_eq id x)) [
        | inl e ↦ inr (inr (subst (Processed w) ((eq_iff id x).0 e) p))
        | inr e ↦ inl (ground (arith, k, e))
      ]
      | inr k ↦ inr k
    ];
  }

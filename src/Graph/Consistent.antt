-- ===== src/Graph/Consistent.antt =====
-- The consistency of the tables of internal/core/node_repo_sqlite.go and rel_repo_sqlite.go, under
-- each of their statements.
use openspace_os_core.Base.{
  All-append, All-keep_if, if_cases, String, Bool, true, false, not, ◌||◌, none, some, List, [],
  ◌∷◌, ◌++◌, ◌≡◌, refl, arith, str_eq, eq_iff, All, keep_if, if◌then◌else◌,
}
use openspace_os_core.Model.{Node, Relationship}
use openspace_os_core.Graph.{Tables}
use openspace_os_core.Graph.Nodes.{find_node, node_row, write_node, without_node}
use openspace_os_core.Graph.Relationships.{find_rel, rel_row, without_rels}

abbrev pub has_node : String → List Node → Bool
has_node id [] = false
has_node id (n ∷ ns) = str_eq n.node_id id || has_node id ns

abbrev pub has_rel : String → List Relationship → Bool
has_rel id [] = false
has_rel id (r ∷ rs) = str_eq r.rel_id id || has_rel id rs

abbrev pub DistinctNodes : List Node → Type 0
DistinctNodes [] = Unit
DistinctNodes (n ∷ ns) = (has_node n.node_id ns ≡ false) × DistinctNodes ns

abbrev pub DistinctRels : List Relationship → Type 0
DistinctRels [] = Unit
DistinctRels (r ∷ rs) = (has_rel r.rel_id rs ≡ false) × DistinctRels rs

-- Both ends of the relationship are nodes.
abbrev pub IsLinked : List Node → Relationship → Type 0
IsLinked ns r = (has_node r.from_node_id ns ≡ true) × (has_node r.to_node_id ns ≡ true)

-- No two nodes share an id, nor two relationships, and no relationship dangles.
pub record IsConsistent (t : Tables) : Type 0 where
  pub nodes : DistinctNodes t.nodes
  pub rels : DistinctRels t.relationships
  pub linked : All (IsLinked t.nodes) t.relationships

pub find_node-none :
    (id : String) (ns : List Node) → find_node id ns ≡ none → has_node id ns ≡ false
unfolding find_node
find_node-none id [] h = refl
find_node-none id (n ∷ ns) h = ground (arith, find_node-none id ns)

pub find_node-some :
    (id : String) (n : Node) (ns : List Node) → find_node id ns ≡ some n → has_node id ns ≡ true
unfolding find_node
find_node-some id n [] h = absurd (ground arith)
find_node-some id n (m ∷ ns) h = ground (arith, find_node-some id n ns)

pub find_rel-none :
    (id : String) (rs : List Relationship) → find_rel id rs ≡ none → has_rel id rs ≡ false
unfolding find_rel
find_rel-none id [] h = refl
find_rel-none id (r ∷ rs) h = ground (arith, find_rel-none id rs)

has_node-append :
    (id : String) (ns : List Node) (m : Node)
    → has_node id (ns ++ (m ∷ [])) ≡ (has_node id ns || str_eq m.node_id id)
has_node-append id [] m = ground arith
has_node-append id (n ∷ ns) m = ground (arith, has_node-append id ns m)

has_rel-append :
    (id : String) (rs : List Relationship) (m : Relationship)
    → has_rel id (rs ++ (m ∷ [])) ≡ (has_rel id rs || str_eq m.rel_id id)
has_rel-append id [] m = ground arith
has_rel-append id (r ∷ rs) m = ground (arith, has_rel-append id rs m)

DistinctNodes-append :
    (ns : List Node) (m : Node)
    → DistinctNodes ns
    → has_node m.node_id ns ≡ false
    → DistinctNodes (ns ++ (m ∷ []))
DistinctNodes-append [] m h new = (refl, tt)
DistinctNodes-append (n ∷ ns) m (fresh, h) new = (
  ground (
    arith,
    has_node-append n.node_id ns m,
    eq_iff n.node_id m.node_id,
    eq_iff m.node_id n.node_id,
  ),
  DistinctNodes-append ns m h (ground arith),
)

pub DistinctRels-append :
    (rs : List Relationship) (m : Relationship)
    → DistinctRels rs
    → has_rel m.rel_id rs ≡ false
    → DistinctRels (rs ++ (m ∷ []))
DistinctRels-append [] m h new = (refl, tt)
DistinctRels-append (r ∷ rs) m (fresh, h) new = (
  ground (arith, has_rel-append r.rel_id rs m, eq_iff r.rel_id m.rel_id, eq_iff m.rel_id r.rel_id),
  DistinctRels-append rs m h (ground arith),
)

-- Links that hold among some nodes hold among others that have every id of a linked end.
IsLinked-among :
    (ns ms : List Node) (rs : List Relationship)
    → ((id : String) → has_node id ns ≡ true → has_node id ms ≡ true)
    → All (IsLinked ns) rs
    → All (IsLinked ms) rs
IsLinked-among ns ms [] more h = tt
IsLinked-among ns ms (r ∷ rs) more ((from, to), h) =
    ((more r.from_node_id from, more r.to_node_id to), IsLinked-among ns ms rs more h)

pub insert_node-IsConsistent :
    (n : Node) (t : Tables)
    → IsConsistent t
    → find_node n.node_id t.nodes ≡ none
    → IsConsistent (record t { nodes = t.nodes ++ (node_row n ∷ []) })
insert_node-IsConsistent n t c new = record {
  nodes = DistinctNodes-append t.nodes (node_row n) c.nodes (find_node-none n.node_id t.nodes new);
  rels = c.rels;
  linked =
      IsLinked-among t.nodes (t.nodes ++ (node_row n ∷ [])) t.relationships
        (λ id h. ground (arith, has_node-append id t.nodes (node_row n))) c.linked;
}

pub has_node-write :
    (id : String) (n : Node) (ns : List Node) → has_node id (write_node n ns) ≡ has_node id ns
unfolding write_node
has_node-write id n [] = refl
has_node-write id n (m ∷ ns) = ground (arith, has_node-write id n ns)

DistinctNodes-write :
    (n : Node) (ns : List Node) → DistinctNodes ns → DistinctNodes (write_node n ns)
unfolding write_node
DistinctNodes-write n [] h = tt
DistinctNodes-write n (m ∷ ns) (fresh, h) =
    (ground (arith, has_node-write m.node_id n ns), DistinctNodes-write n ns h)

pub write_node-IsConsistent :
    (n : Node) (t : Tables)
    → IsConsistent t
    → IsConsistent (record t { nodes = write_node n t.nodes })
write_node-IsConsistent n t c = record {
  nodes = DistinctNodes-write n t.nodes c.nodes;
  rels = c.rels;
  linked =
      IsLinked-among t.nodes (write_node n t.nodes) t.relationships
        (λ id h. ground (arith, has_node-write id n t.nodes)) c.linked;
}

pub insert_rel-IsConsistent :
    (r : Relationship) (t : Tables)
    → IsConsistent t
    → find_rel r.rel_id t.relationships ≡ none
    → IsLinked t.nodes r
    → IsConsistent (record t { relationships = t.relationships ++ (rel_row r ∷ []) })
insert_rel-IsConsistent r t c new link = record {
  nodes = c.nodes;
  rels =
      DistinctRels-append t.relationships (rel_row r) c.rels
        (find_rel-none r.rel_id t.relationships new);
  linked = All-append (IsLinked t.nodes) t.relationships (rel_row r ∷ []) c.linked (link, tt);
}

has_rel-keep_if :
    (id : String) (p : Relationship → Bool) (rs : List Relationship)
    → has_rel id rs ≡ false
    → has_rel id (keep_if p rs) ≡ false
has_rel-keep_if id p [] h = refl
has_rel-keep_if id p (r ∷ rs) h = ground (arith, has_rel-keep_if id p rs)

DistinctRels-keep_if :
    (p : Relationship → Bool) (rs : List Relationship)
    → DistinctRels rs
    → DistinctRels (keep_if p rs)
DistinctRels-keep_if p [] h = tt
DistinctRels-keep_if p (r ∷ rs) (fresh, h) =
    if_cases DistinctRels (p r)
      (λ kept. (has_rel-keep_if r.rel_id p rs fresh, DistinctRels-keep_if p rs h))
      (λ gone. DistinctRels-keep_if p rs h)

pub without_rels-IsConsistent :
    (gone : Relationship → Bool) (t : Tables) → IsConsistent t → IsConsistent (without_rels gone t)
without_rels-IsConsistent gone t c = record {
  nodes = c.nodes;
  rels = DistinctRels-keep_if (λ r. not (gone r)) t.relationships c.rels;
  linked = All-keep_if (IsLinked t.nodes) (λ r. not (gone r)) t.relationships c.linked;
}

-- Neither end of the relationship is the node.
abbrev pub Avoids : String → Relationship → Type 0
Avoids id r = (str_eq r.from_node_id id ≡ false) × (str_eq r.to_node_id id ≡ false)

pub has_node-without :
    (id j : String) (ns : List Node)
    → has_node j (keep_if (λ n. not (str_eq n.node_id id)) ns)
      ≡ (if str_eq j id then false else has_node j ns)
has_node-without id j [] = ground arith
has_node-without id j (n ∷ ns) =
    ground (arith, eq_iff n.node_id id, eq_iff n.node_id j, eq_iff j id, has_node-without id j ns)

DistinctNodes-without :
    (id : String) (ns : List Node)
    → DistinctNodes ns
    → DistinctNodes (keep_if (λ n. not (str_eq n.node_id id)) ns)
DistinctNodes-without id [] h = tt
DistinctNodes-without id (n ∷ ns) (fresh, h) =
    if_cases DistinctNodes (not (str_eq n.node_id id))
      (λ kept. (ground (arith, has_node-without id n.node_id ns), DistinctNodes-without id ns h))
      (λ gone. DistinctNodes-without id ns h)

IsLinked-without :
    (id : String) (ns : List Node) (rs : List Relationship)
    → All (IsLinked ns) rs
    → All (Avoids id) rs
    → All (IsLinked (keep_if (λ n. not (str_eq n.node_id id)) ns)) rs
IsLinked-without id ns [] h a = tt
IsLinked-without id ns (r ∷ rs) ((from, to), h) ((f, t), a) = (
  (
    ground (arith, has_node-without id r.from_node_id ns),
    ground (arith, has_node-without id r.to_node_id ns),
  ),
  IsLinked-without id ns rs h a,
)

-- A node that no relationship touches can go.
pub without_node-IsConsistent :
    (id : String) (t : Tables)
    → IsConsistent t
    → All (Avoids id) t.relationships
    → IsConsistent (without_node id t)
without_node-IsConsistent id t c a = record {
  nodes = DistinctNodes-without id t.nodes c.nodes;
  rels = c.rels;
  linked = IsLinked-without id t.nodes t.relationships c.linked a;
}

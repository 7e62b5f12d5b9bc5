-- ===== src/Graph/Relationships.antt =====
-- The repository of relationships: internal/core/rel_repo_sqlite.go. `rel_id` is the table's primary
-- key; there is no foreign key. `by_age` is the engine's `ORDER BY created_at ASC, rel_id ASC`. The
-- sets of `Traverse` are lists of their members.
use openspace_os_core.Base.{
  ℕ, zero, suc, ℤ, pos, pos_part, leb_ℤ, String, Bool, not, ◌&&◌, ◌||◌, Option, none, some, List,
  [], ◌∷◌, ◌++◌, if◌then◌else◌, str_eq, keep_if,
}
use openspace_os_core.Event.Schema.{contains}
use openspace_os_core.Model.{Node, Relationship}
use openspace_os_core.Graph.{
  Tables, Database, Answer, ok, err, nil_rel, duplicate, not_found, M, ◌>>=◌, ◌>>◌, statement,
  driver_call, throw, return,
}
use openspace_os_core.Graph.Nodes.{find_node, kept_properties}

abbrev pub rel_row : Relationship → Relationship
rel_row r = record r { properties = kept_properties r.properties }

unfoldable pub find_rel : String → List Relationship → Option Relationship
find_rel id [] = none
find_rel id (r ∷ rs) = if str_eq r.rel_id id then some r else find_rel id rs

abbrev pub counted : String → Tables → Option Node → Answer (Unit {0}) × Tables
counted id t none = (err (not_found id), t)
counted id t (some n) = (ok tt, t)

-- `SELECT COUNT(*) FROM nodes WHERE node_id = ?`
unfoldable pub ensure_node_exists : String → M Database (Unit {0})
ensure_node_exists id = statement (λ t. counted id t (find_node id t.nodes))

abbrev pub insert_rel : Relationship → Tables → Option Relationship → Answer (Unit {0}) × Tables
insert_rel r t (some old) = (err (duplicate r.rel_id), t)
insert_rel r t none = (ok tt, record t { relationships = t.relationships ++ (rel_row r ∷ []) })

unfoldable pub create_rel : Option Relationship → M Database (Unit {0})
create_rel none = throw nil_rel
create_rel (some r) = do
  driver_call
  ensure_node_exists r.from_node_id
  ensure_node_exists r.to_node_id
  statement (λ t. insert_rel r t (find_rel r.rel_id t.relationships))

abbrev pub without_rels : (Relationship → Bool) → Tables → Tables
without_rels drop t = record t { relationships = keep_if (λ r. not (drop r)) t.relationships }

-- `DELETE FROM relationships WHERE rel_id = ?`
unfoldable pub delete_rel : String → M Database (Unit {0})
delete_rel id = driver_call >> statement (λ t. (ok tt, without_rels (λ r. str_eq r.rel_id id) t))

abbrev pub of_type : String → Relationship → Bool
of_type type r = str_eq type "" || str_eq r.rel_type type

-- `WHERE` of `queryForTraversal`.
unfoldable pub leads : String → String → Relationship → Bool
leads direction id r =
    if str_eq direction "in"
    then str_eq r.to_node_id id
    else if str_eq direction "both"
    then str_eq r.from_node_id id || str_eq r.to_node_id id
    else str_eq r.from_node_id id

pub record TraverseOptions : Type 0 where
  pub rel_type : String
  pub direction : String
  pub max_depth : ℤ

-- The variables of `Traverse`.
pub record Walk : Type 0 where
  pub visited : List String
  pub collected : List String
  pub result : List Relationship
  pub next_frontier : List String

-- The end of the relationship that is not the node.
abbrev pub other_end : String → Relationship → String
other_end id r = if not (str_eq r.from_node_id id) then r.from_node_id else r.to_node_id

abbrev pub reach : String → Walk → Walk
reach other w =
    if contains other w.visited
    then w
    else record w { visited = other ∷ w.visited; next_frontier = w.next_frontier ++ (other ∷ []) }

-- One round of the innermost loop.
unfoldable pub collect : String → Relationship → Walk → Walk
collect id r w =
    if contains r.rel_id w.collected
    then w
    else reach (other_end id r)
        (record w { collected = r.rel_id ∷ w.collected; result = w.result ++ (r ∷ []) })

unfoldable pub collect_all : String → List Relationship → Walk → Walk
collect_all id [] w = w
collect_all id (r ∷ rs) w = collect_all id rs (collect id r w)

module _ (by_age : List Relationship → List Relationship) where
  -- `listByNode`.
  unfoldable pub list_by_node :
      (Relationship → String) → String → String → M Database (List Relationship)
  list_by_node column id type =
      driver_call
      >> statement (λ t.
        (ok (by_age (keep_if (λ r. str_eq (column r) id && of_type type r) t.relationships)), t))

  unfoldable pub list_outgoing : String → String → M Database (List Relationship)
  unfolding list_by_node
  list_outgoing id type = list_by_node (λ r. r.from_node_id) id type

  unfoldable pub list_incoming : String → String → M Database (List Relationship)
  unfolding list_by_node
  list_incoming id type = list_by_node (λ r. r.to_node_id) id type

  unfoldable pub query_for_traversal : String → String → String → M Database (List Relationship)
  query_for_traversal direction type id = statement (λ t.
      (ok (by_age (keep_if (λ r. leads direction id r && of_type type r) t.relationships)), t))

  -- The loop over the frontier.
  unfoldable pub expand : String → String → List String → Walk → M Database Walk
  expand direction type [] w = return w
  expand direction type (id ∷ ids) w = do
    rels ← query_for_traversal direction type id
    expand direction type ids (collect_all id rels w)

  -- The loop over the depth, with the rounds that are left.
  unfoldable pub levels : String → String → ℕ → List String → Walk → M Database Walk
  levels direction type zero frontier w = return w
  levels direction type (suc rounds) [] w = return w
  levels direction type (suc rounds) (id ∷ ids) w = do
    w' ← expand direction type (id ∷ ids) (record w { next_frontier = [] })
    levels direction type rounds w'.next_frontier w'

  unfoldable pub traverse : String → TraverseOptions → M Database (List Relationship)
  traverse start o = do
    driver_call
    let direction = if str_eq o.direction "" then "out" else o.direction
    let max_depth = if leb_ℤ o.max_depth (pos 0) then 1 else pos_part o.max_depth
    w ←
        levels direction o.rel_type max_depth (start ∷ [])
          (record { visited = start ∷ []; collected = []; result = []; next_frontier = [] })
    return w.result

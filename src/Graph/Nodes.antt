-- ===== src/Graph/Nodes.antt =====
-- The repository of nodes: internal/core/node_repo_sqlite.go. `node_id` is the table's primary key.
use openspace_os_core.Base.{
  ℕ, ℤ, pos, pos_part, leb_ℤ, String, Bool, not, ◌&&◌, ◌||◌, Option, none, some, List, [], ◌∷◌,
  ◌++◌, if◌then◌else◌, str_eq, keep_if, take, drop,
}
use openspace_os_core.Event.{Payload}
use openspace_os_core.Model.{Node}
use openspace_os_core.Graph.{
  Tables, Database, Answer, ok, err, nil_node, duplicate, not_found, M, ◌>>◌, statement,
  driver_call, throw,
}

-- What `unmarshalProperties` makes of what `marshalProperties` writes.
abbrev pub kept_properties : Payload → Payload
kept_properties none = none
kept_properties (some []) = none
kept_properties (some (p ∷ ps)) = some (p ∷ ps)

abbrev pub node_row : Node → Node
node_row n = record n { properties = kept_properties n.properties }

-- `SELECT … FROM nodes WHERE node_id = ?`
unfoldable pub find_node : String → List Node → Option Node
find_node id [] = none
find_node id (n ∷ ns) = if str_eq n.node_id id then some n else find_node id ns

abbrev pub insert_node : Node → Tables → Option Node → Answer (Unit {0}) × Tables
insert_node n t (some old) = (err (duplicate n.node_id), t)
insert_node n t none = (ok tt, record t { nodes = t.nodes ++ (node_row n ∷ []) })

unfoldable pub create_node : Option Node → M Database (Unit {0})
create_node none = throw nil_node
create_node (some n) = driver_call >> statement (λ t. insert_node n t (find_node n.node_id t.nodes))

abbrev pub found_node : String → Tables → Option Node → Answer Node × Tables
found_node id t none = (err (not_found id), t)
found_node id t (some n) = (ok n, t)

unfoldable pub get_node : String → M Database Node
get_node id = driver_call >> statement (λ t. found_node id t (find_node id t.nodes))

-- The columns that `UPDATE nodes SET …` writes: all but the id and the time of creation.
abbrev pub written_row : Node → Node → Node
written_row n old = record (node_row n) { node_id = old.node_id; created_at = old.created_at }

-- `UPDATE nodes SET … WHERE node_id = ?`
unfoldable pub write_node : Node → List Node → List Node
write_node n [] = []
write_node n (m ∷ ms) =
    (if str_eq m.node_id n.node_id then written_row n m else m) ∷ write_node n ms

abbrev pub updated_node : Node → Tables → Option Node → Answer (Unit {0}) × Tables
updated_node n t none = (err (not_found n.node_id), t)
updated_node n t (some old) = (ok tt, record t { nodes = write_node n t.nodes })

unfoldable pub update_node_row : Option Node → M Database (Unit {0})
update_node_row none = throw nil_node
update_node_row (some n) =
    driver_call >> statement (λ t. updated_node n t (find_node n.node_id t.nodes))

-- `DELETE FROM nodes WHERE node_id = ?`
abbrev pub without_node : String → Tables → Tables
without_node id t = record t { nodes = keep_if (λ n. not (str_eq n.node_id id)) t.nodes }

unfoldable pub delete_node_row : String → M Database (Unit {0})
delete_node_row id = driver_call >> statement (λ t. (ok tt, without_node id t))

pub record ListOptions : Type 0 where
  pub node_type : String
  pub owner_community_id : String
  pub status : String
  pub limit : ℤ
  pub offset : ℤ

abbrev pub default_list_limit : ℕ
default_list_limit = 100

-- `column = ?`, where the option is given.
abbrev pub allows : String → String → Bool
allows filter value = str_eq filter "" || str_eq value filter

unfoldable pub match_node : ListOptions → Node → Bool
match_node o n =
    allows o.node_type n.node_type
    && (allows o.owner_community_id n.owner_community_id && allows o.status n.status)

abbrev pub page_nodes : ListOptions → List Node → List Node
page_nodes o ns =
    take (if leb_ℤ o.limit (pos 0) then default_list_limit else pos_part o.limit)
      (drop (pos_part o.offset) ns)

-- `List`; `by_age` is the engine's `ORDER BY created_at ASC, node_id ASC`.
unfoldable pub list_nodes : (List Node → List Node) → ListOptions → M Database (List Node)
list_nodes by_age o =
    driver_call >> statement (λ t. (ok (page_nodes o (by_age (keep_if (match_node o) t.nodes))), t))

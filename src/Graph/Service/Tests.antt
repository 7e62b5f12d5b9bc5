-- ===== src/Graph/Service/Tests.antt =====
-- A small graph, and the theorems on it.
use openspace_os_core.Base.{
  pos, ℕ, suc, ◌≡◌, ◌↔◌, ◌⊎◌, refl, String, true, none, some, List, [], ◌∷◌,
}
use openspace_os_core.Bus.{MessageBus}
use openspace_os_core.Event.{str}
use openspace_os_core.Model.{Node, Relationship}
use openspace_os_core.Graph.Rules.{IsRow, OnTables, Ends}
use openspace_os_core.Graph.Consistent.{DistinctRels, IsConsistent}
use openspace_os_core.Event.Schema.{contains}
use openspace_os_core.Graph.Traversal.{Found}
use openspace_os_core.Graph.Traversal.Exact.{traverse_exact}
use openspace_os_core.Graph.Relationships.{
  TraverseOptions, traverse, levels, expand, query_for_traversal, leads, collect_all, collect,
}
use openspace_os_core.Graph.Dialect.{rebind_postgres, rebind_from, write_int, digits}
use openspace_os_core.Graph.Service.{
  ok, Database, KgService, Stamp, delete_node_in_tx, delete_node_no_tx,
}
use openspace_os_core.Graph.Rules.{Rearranges}
use openspace_os_core.Graph.Service.Modes.{deleted}
use openspace_os_core.Graph.Service.Atomic.{
  IsDeleted, delete_node_in_tx_atomic, delete_node_no_tx_lem,
}
use openspace_os_core.Graph.Service.Integrity.{
  Request, register, change, delete, relate, unrelate, serve_all, serve_all-IsConsistent,
}

abbrev counting_bus : MessageBus ℕ
counting_bus = record { publish = λ n e. (none, suc n) }

abbrev same_order : List Relationship → List Relationship
same_order rs = rs

same_order-Rearranges : Rearranges same_order
same_order-Rearranges = record { counts = λ p rs. refl; rows = λ rs r h. h }

abbrev node : String → Node
node id = record {
  node_id = id;
  node_type = "satellite";
  name = id;
  status = "active";
  owner_community_id = "";
  created_at = 1;
  updated_at = 1;
  shard_key = "";
  federation_id = "";
  properties = none;
}

abbrev link : Relationship
link = record {
  rel_id = "r1";
  from_node_id = "a";
  to_node_id = "b";
  rel_type = "owns";
  properties = none;
  created_at = 1;
}

-- The same tables, and a driver that never fails.
abbrev graph_db : Database
graph_db = record {
  tables = record { nodes = node "a" ∷ node "b" ∷ []; relationships = link ∷ [] };
  faults = [];
}

abbrev graph : KgService ℕ
graph = record {
  db = record {
    tables = record { nodes = node "a" ∷ node "b" ∷ []; relationships = link ∷ [] };
    faults = none ∷ none ∷ some "busy" ∷ [];
  };
  bus = 0;
  hooked = true;
  transactional = true;
  calls = [];
}

graph-IsConsistent : IsConsistent graph.db.tables
graph-IsConsistent = record {
  nodes = (refl, (refl, tt));
  rels = (refl, tt);
  linked = ((refl, refl), tt);
}

abbrev stamp : Stamp
stamp = record { event_id = "e"; now = 5; trace_id = "" }

delete_node_in_tx_atomic_example :
    Ends
      (λ _ u. IsDeleted "a" graph.db.tables u.db.tables)
      (λ u. (u.db.tables ≡ graph.db.tables) ⊎ IsDeleted "a" graph.db.tables u.db.tables)
      (delete_node_in_tx counting_bus stamp "a" graph)
delete_node_in_tx_atomic_example = delete_node_in_tx_atomic counting_bus stamp "a" graph

delete_node_no_tx_lem_example :
    Ends
      (λ _ u. u.db.tables ≡ deleted "a" graph.db.tables)
      (λ u. IsConsistent u.db.tables)
      (delete_node_no_tx counting_bus same_order stamp "a" graph)
delete_node_no_tx_lem_example =
    delete_node_no_tx_lem counting_bus same_order-Rearranges stamp "a" graph graph-IsConsistent

abbrev test_requests : List Request
test_requests =
    register 9 stamp stamp (some (node "c"))
    ∷ relate 9 stamp (some (record link { rel_id = "r2"; to_node_id = "c" }))
    ∷ change 9 stamp stamp "a" (("status", str "idle") ∷ [])
    ∷ delete stamp "b"
    ∷ unrelate stamp "r2"
    ∷ []

serve_all-IsConsistent_example :
    IsConsistent (serve_all counting_bus same_order test_requests graph).db.tables
serve_all-IsConsistent_example =
    serve_all-IsConsistent counting_bus same_order same_order-Rearranges test_requests graph
      graph-IsConsistent

abbrev both_ways : TraverseOptions
both_ways = record { rel_type = ""; direction = "both"; max_depth = pos 2 }

traverse_test : (traverse same_order "b" both_ways graph_db).0 ≡ ok (link ∷ [])
unfolding traverse levels expand query_for_traversal leads collect_all collect contains
traverse_test = refl

traverse_exact_example :
    OnTables
      (λ rs u.
        (u ≡ graph_db.tables)
        × DistinctRels rs
        × ((r : Relationship) → IsRow r rs ↔ Found "both" "" "b" (link ∷ []) 2 r))
      (λ u. u ≡ graph_db.tables)
      (traverse same_order "b" both_ways graph_db)
traverse_exact_example = traverse_exact same_order-Rearranges "b" both_ways graph_db (refl, tt)

rebind_test : rebind_postgres (b'?' ∷ b',' ∷ b'?' ∷ []) ≡ b'$' ∷ b'1' ∷ b',' ∷ b'$' ∷ b'2' ∷ []
unfolding rebind_postgres rebind_from write_int digits
rebind_test = refl

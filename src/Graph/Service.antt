-- ===== src/Graph/Service.antt =====
-- The graph's domain service: internal/core/kg_service.go. The service's own fields are `hooked` (a
-- hook trigger is set) and `transactional` (a database handle is set); `calls` is what the trigger was
-- called with. Fresh ids, the clock and the context's trace id are arguments (`Stamp`).
pub mod Integrity
pub mod Deletion
pub mod Modes
pub mod Calls
pub mod Atomic
pub mod Tests
use openspace_os_core.Base.{
  ℕ, String, Bool, true, false, not, ◌||◌, Option, none, some, List, [], ◌∷◌, ◌++◌, if◌then◌else◌,
  str_eq, keep_if, ◌==◌,
}
use openspace_os_core.Event.{Event, Payload, Value, str, object, Fields, end, field}
use openspace_os_core.Bus.{MessageBus}
use openspace_os_core.Model.{Node, Relationship, ModelError, validate_node, validate_relationship}
use openspace_os_core.Graph.{
  Tables, Database, GraphError, Answer, ok, err, nil_node, nil_rel, empty_changes, invalid,
  not_found, not_published, M, and_then, ◌>>=◌, ◌>>◌, return, throw, statement, driver_call,
  roll_back_to,
}
use openspace_os_core.Graph.Nodes.{
  create_node, get_node, update_node_row, delete_node_row, find_node, without_node, list_nodes,
  ListOptions,
}
use openspace_os_core.Graph.Relationships.{
  create_rel, delete_rel, list_outgoing, list_incoming, without_rels, traverse, TraverseOptions,
}

pub record Stamp : Type 0 where
  pub event_id : String
  pub now : ℕ
  pub trace_id : String

pub data HookCall : Type 0 where
  node_registered : Node → HookCall
  node_updated : Node → List (String × Value) → HookCall
  node_deleted : String → HookCall

pub record KgService (B : Type 0) : Type 0 where
  pub db : Database
  pub bus : B
  pub hooked : Bool
  pub transactional : Bool
  pub calls : List HookCall

-- `v.(map[string]any)`, and back.
abbrev pub entries : Fields → List (String × Value)
entries end = []
entries (field k v fs) = (k, v) ∷ entries fs

abbrev pub to_fields : List (String × Value) → Fields
to_fields [] = end
to_fields ((k, v) ∷ m) = field k v (to_fields m)

-- The payloads of the service's events, as `SetPayload` leaves them.
abbrev pub node_registered_map : String → String → Payload
node_registered_map id type = some (("nodeId", str id) ∷ ("nodeType", str type) ∷ [])

abbrev pub state_updated_map : String → String → String → Payload
state_updated_map id old new = some (
    ("nodeId", str id)
    ∷ ((if str_eq old "" then [] else ("oldStatus", str old) ∷ [])
        ++ (("newStatus", str new) ∷ [])))

abbrev pub node_updated_map : String → List (String × Value) → Payload
node_updated_map id changes =
    some (("nodeId", str id) ∷ ("changes", object (to_fields changes)) ∷ [])

abbrev pub node_deleted_map : String → Payload
node_deleted_map id = some (("nodeId", str id) ∷ [])

abbrev pub relationship_created_map : Relationship → Payload
relationship_created_map r = some (
    ("relId", str r.rel_id)
    ∷ ("fromNodeId", str r.from_node_id)
    ∷ ("toNodeId", str r.to_node_id)
    ∷ ("relType", str r.rel_type)
    ∷ [])

abbrev pub relationship_deleted_map : String → Payload
relationship_deleted_map id = some (("relId", str id) ∷ [])

abbrev pub stamped : Stamp → String → String → Payload → Event
stamped stamp type source payload = record {
  event_id = stamp.event_id;
  event_type = type;
  timestamp = stamp.now;
  source_node_id = source;
  trace_id = stamp.trace_id;
  payload = payload;
}

-- One entry of `changes`; unknown keys and values of another type are skipped.
abbrev pub change_text : String → String → Node → Node
change_text key s n =
    if str_eq key "name"
    then record n { name = s }
    else if str_eq key "status"
    then record n { status = s }
    else if str_eq key "shardKey"
    then record n { shard_key = s }
    else if str_eq key "federationId"
    then record n { federation_id = s }
    else n

unfoldable pub apply_change : String → Value → Node → Node
apply_change key (str s) n = change_text key s n
apply_change key (object fs) n =
    if str_eq key "properties" then record n { properties = some (entries fs) } else n
apply_change key _ n = n

unfoldable pub apply_changes : List (String × Value) → Node → Node
apply_changes [] n = n
apply_changes ((key, v) ∷ rest) n = apply_changes rest (apply_change key v n)

-- `DELETE FROM relationships WHERE from_node_id = ? OR to_node_id = ?`
abbrev pub without_rels_of : String → Tables → Tables
without_rels_of id = without_rels (λ r. str_eq r.from_node_id id || str_eq r.to_node_id id)

abbrev pub deleted_rows : String → Tables → Option Node → Answer (Unit {0}) × Tables
deleted_rows id t none = (err (not_found id), t)
deleted_rows id t (some n) = (ok tt, without_node id t)

-- The statements between `BeginTx` and `Commit`, and `Commit`.
abbrev pub delete_rows : String → M Database (Unit {0})
delete_rows id = do
  statement (λ t. (ok tt, without_rels_of id t))
  statement (λ t. deleted_rows id t (find_node id t.nodes))
  driver_call

abbrev pub rows_in_tx : String → M Database (Unit {0})
rows_in_tx id d = roll_back_to d.tables (delete_rows id d)

unfoldable pub delete_each : List Relationship → M Database (Unit {0})
delete_each [] = return tt
delete_each (r ∷ rs) = do delete_rel r.rel_id; delete_each rs

unfoldable pub delete_relationships_of_node :
    (List Relationship → List Relationship) → String → M Database (Unit {0})
unfolding delete_each
delete_relationships_of_node by_age id = do
  out ← list_outgoing by_age id ""
  into ← list_incoming by_age id ""
  delete_each out
  delete_each into

abbrev pub dated : ℕ → Node → Node
dated now n = record n { created_at = now; updated_at = now }

module _ {B : Type 0} where
  abbrev pub with_db : {A : Type 0} → KgService B → Answer A × Database → Answer A × KgService B
  with_db s (a, d) = (a, record s { db = d })

  -- A call of a repository.
  abbrev pub stored : {A : Type 0} → M Database A → M (KgService B) A
  stored m s = with_db s (m s.db)

  abbrev pub trigger : HookCall → M (KgService B) (Unit {0})
  trigger call s = (ok tt, if s.hooked then record s { calls = s.calls ++ (call ∷ []) } else s)

  abbrev pub when_valid : Option ModelError → M (KgService B) (Unit {0})
  when_valid none = return tt
  when_valid (some e) = throw (invalid e)

module _ {B : Type 0} (b : MessageBus B) where
  abbrev pub publish_result : KgService B → Option String × B → Answer (Unit {0}) × KgService B
  publish_result s (none, bus) = (ok tt, record s { bus = bus })
  publish_result s (some e, bus) = (err (not_published e), record s { bus = bus })

  -- `publishEvent`.
  unfoldable pub publish_event : Stamp → String → String → Payload → M (KgService B) (Unit {0})
  publish_event stamp type source payload s =
      publish_result s (b.publish s.bus (stamped stamp type source payload))

  unfoldable pub register_node : ℕ → Stamp → Stamp → Option Node → M (KgService B) (Unit {0})
  register_node now st1 st2 none = throw nil_node
  register_node now st1 st2 (some node) = do
    let n = dated now node
    when_valid (validate_node n)
    stored (create_node (some n))
    publish_event st1 "NodeRegistered" n.node_id (node_registered_map n.node_id n.node_type)
    publish_event st2 "StateUpdated" n.node_id (state_updated_map n.node_id "" n.status)
    trigger (node_registered n)

  abbrev pub report_status : Stamp → String → String → String → M (KgService B) (Unit {0})
  report_status stamp id old new =
      if str_eq new old
      then return tt
      else publish_event stamp "StateUpdated" id (state_updated_map id old new)

  unfoldable pub update_node :
      ℕ → Stamp → Stamp → String → List (String × Value) → M (KgService B) Node
  update_node now st1 st2 id [] = throw empty_changes
  update_node now st1 st2 id (c ∷ cs) = do
    old ← stored (get_node id)
    let n = record (apply_changes (c ∷ cs) old) { updated_at = now }
    stored (update_node_row (some n))
    report_status st1 id old.status n.status
    publish_event st2 "NodeUpdated" id (node_updated_map id (c ∷ cs))
    trigger (node_updated n (c ∷ cs))
    return n

  unfoldable pub delete_node_in_tx : Stamp → String → M (KgService B) (Unit {0})
  delete_node_in_tx st id = do
    stored driver_call
    stored (rows_in_tx id)
    publish_event st "NodeDeleted" id (node_deleted_map id)
    trigger (node_deleted id)

  module _ (by_age : List Relationship → List Relationship) where
    unfoldable pub delete_node_no_tx : Stamp → String → M (KgService B) (Unit {0})
    delete_node_no_tx st id = do
      stored (delete_relationships_of_node by_age id)
      stored (delete_node_row id)
      publish_event st "NodeDeleted" id (node_deleted_map id)
      trigger (node_deleted id)

    unfoldable pub delete_node : Stamp → String → M (KgService B) (Unit {0})
    delete_node st id s =
        if s.transactional then delete_node_in_tx st id s else delete_node_no_tx st id s

    unfoldable pub query_relationships :
        String → String → String → M (KgService B) (List Relationship)
    query_relationships id direction type =
        if str_eq direction "in"
        then stored (list_incoming by_age id type)
        else if str_eq direction "both"
        then (do
          out ← stored (list_outgoing by_age id type)
          into ← stored (list_incoming by_age id type)
          return (out ++ into))
        else stored (list_outgoing by_age id type)

    unfoldable pub traverse_graph : String → TraverseOptions → M (KgService B) (List Relationship)
    traverse_graph start o = stored (traverse by_age start o)

  unfoldable pub create_relationship : ℕ → Stamp → Option Relationship → M (KgService B) (Unit {0})
  create_relationship now st none = throw nil_rel
  create_relationship now st (some rel) = do
    let r = record rel { created_at = if rel.created_at == 0 then now else rel.created_at }
    when_valid (validate_relationship r)
    from ← stored (get_node r.from_node_id)
    to ← stored (get_node r.to_node_id)
    stored (create_rel (some r))
    publish_event st "RelationshipCreated" r.from_node_id (relationship_created_map r)

  unfoldable pub delete_relationship : Stamp → String → M (KgService B) (Unit {0})
  delete_relationship st id = do
    stored (delete_rel id)
    publish_event st "RelationshipDeleted" id (relationship_deleted_map id)

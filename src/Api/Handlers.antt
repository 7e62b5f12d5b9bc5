-- ===== src/Api/Handlers.antt =====
-- Handlers of internal/api/rest/handler.go: those of the graph's nodes and relationships and those of
-- the commands. Fresh ids, the clock and the trace ids of a request's events come with the call; a
-- body that cannot be decoded is `none`. An error response is its status code.
-- The pipeline has a validator, as `NewPipeline` sets one, and its scheduler takes no step between the
-- requests.
use openspace_os_core.Base.{
  ℕ, ℤ, pos, String, Bool, true, false, not, Option, none, some, List, [], ◌∷◌, str_eq,
  if◌then◌else◌, eqb_ℤ,
}
use openspace_os_core.Event.{Value, Payload}
use openspace_os_core.Bus.{MessageBus}
use openspace_os_core.Model.{Node, Relationship, one_of, node_types, relationship_types}
use openspace_os_core.Graph.{GraphError, Answer, ok, err, not_found}
use openspace_os_core.Graph.Nodes.{get_node}
use openspace_os_core.Graph.Service.{
  KgService, Stamp, stored, dated, register_node, update_node, delete_node, create_relationship,
  delete_relationship, traverse_graph,
}
use openspace_os_core.Command.Queue.{PriorityQueue}
use openspace_os_core.Command.Pipeline.{
  CommandStatus, Sent, accepted, refused, send, get_status, cancel, CancelCheck, may_cancel,
  not_pending,
}
use openspace_os_core.Command.Pipeline
use openspace_os_core.Api
use openspace_os_core.Api.{Endpoint, Headers, Authenticator, guard}

pub record CreateNodeRequest : Type 0 where
  pub node_id : String
  pub node_type : String
  pub name : String
  pub status : String
  pub owner_community_id : String
  pub shard_key : String
  pub federation_id : String
  pub properties : Payload

pub record CreateRelationshipRequest : Type 0 where
  pub to_node_id : String
  pub rel_type : String
  pub properties : Payload

pub record SendCommandRequest : Type 0 where
  pub satellite_id : String
  pub command_type : String
  pub parameters : Payload
  pub priority : ℤ

-- What the handlers act on; without a command pipeline the queue is `none`.
pub record ApiState (B : Type 0) : Type 0 where
  pub kg : KgService B
  pub queue : Option PriorityQueue

pub data Body : Type 0 where
  empty error_body : Body
  node_body : Node → Body
  relationship_body : Relationship → Body
  relationships_body : List Relationship → Body
  command_body : String → Body
  status_body : CommandStatus → Body

abbrev pub Response : Type 0 → Type 0
Response B = (ℕ × Body) × ApiState B

-- `handleServiceError`.
unfoldable pub service_error : GraphError → ℕ
service_error (not_found id) = 404
service_error e = 500

abbrev pub error : {B : Type 0} → ℕ → ApiState B → Response B
error code s = ((code, error_body), s)

-- The response to the answer of the graph's service.
abbrev pub respond :
    {A B : Type 0} → ℕ → (A → Body) → ApiState B → Answer A × KgService B → Response B
respond code f s (err e, kg) = error (service_error e) (record s { kg = kg })
respond code f s (ok a, kg) = ((code, f a), record s { kg = kg })

-- The checks of the body of CreateNode.
unfoldable pub node_request_ok : CreateNodeRequest → Bool
node_request_ok r =
    if str_eq r.node_id ""
    then false
    else if str_eq r.node_type ""
    then false
    else if not (one_of r.node_type node_types)
    then false
    else if str_eq r.name ""
    then false
    else if str_eq r.status ""
    then false
    else not (str_eq r.owner_community_id "")

abbrev pub requested_node : CreateNodeRequest → Node
requested_node r = record {
  node_id = r.node_id;
  node_type = r.node_type;
  name = r.name;
  status = r.status;
  owner_community_id = r.owner_community_id;
  created_at = 0;
  updated_at = 0;
  shard_key = r.shard_key;
  federation_id = r.federation_id;
  properties = r.properties;
}

unfoldable pub rel_request_ok : CreateRelationshipRequest → Bool
rel_request_ok r =
    if str_eq r.to_node_id ""
    then false
    else if str_eq r.rel_type ""
    then false
    else one_of r.rel_type relationship_types

abbrev pub requested_rel : String → String → CreateRelationshipRequest → Relationship
requested_rel id from r = record {
  rel_id = id;
  from_node_id = from;
  to_node_id = r.to_node_id;
  rel_type = r.rel_type;
  properties = r.properties;
  created_at = 0;
}

abbrev pub sent_response : {B : Type 0} → String → ApiState B → Sent → Response B
sent_response id s (accepted q) = ((202, command_body id), record s { queue = some q })
sent_response id s (refused e) = error 400 s

abbrev pub cancel_response :
    {B : Type 0} → String → ApiState B → CancelCheck × PriorityQueue → Response B
cancel_response id s (may_cancel a, q) = ((200, command_body id), record s { queue = some q })
cancel_response id s (not_pending k t, q) = error 400 (record s { queue = some q })
cancel_response id s (Pipeline.not_found k, q) = error 400 (record s { queue = some q })

abbrev pub status_response : {B : Type 0} → ApiState B → Option CommandStatus → Response B
status_response s none = error 404 s
status_response s (some c) = ((200, status_body c), s)

-- The calls of the modelled endpoints, with what is fresh for them.
pub data Call : Type 0 where
  create_node : (now : ℕ) (st1 st2 : Stamp) → Option CreateNodeRequest → Call
  get_one_node : (id : String) → Call
  change_node : (now : ℕ) (st1 st2 : Stamp) (id : String) → Option (List (String × Value)) → Call
  remove_node : (st : Stamp) (id : String) → Call
  relate : (now : ℕ) (st : Stamp) (uuid from : String) → Option CreateRelationshipRequest → Call
  unrelate : (st : Stamp) (id : String) → Call
  traverse : (id direction rel_type : String) (depth : Option ℕ) → Call
  send_command : (now : ℕ) (uuid : String) → Option SendCommandRequest → Call
  command_status : (id : String) → Call
  cancel_command : (id : String) → Call

unfoldable pub endpoint : Call → Endpoint
endpoint (create_node now st1 st2 body) = Api.create_node
endpoint (get_one_node id) = Api.get_node
endpoint (change_node now st1 st2 id body) = Api.update_node
endpoint (remove_node st id) = Api.delete_node
endpoint (relate now st uuid from body) = Api.create_relationship
endpoint (unrelate st id) = Api.delete_relationship
endpoint (traverse id direction rel_type depth) = Api.traverse_graph
endpoint (send_command now uuid body) = Api.send_command
endpoint (command_status id) = Api.get_command_status
endpoint (cancel_command id) = Api.cancel_command

-- A depth that is not given, not a number or not positive is 1.
abbrev pub depth_of : Option ℕ → ℤ
depth_of none = pos 1
depth_of (some n) = if eqb_ℤ (pos n) (pos 0) then pos 1 else pos n

module _ {B : Type 0} (b : MessageBus B) (by_age : List Relationship → List Relationship) where
  abbrev pub with_id : String → ApiState B → Response B → Response B
  with_id id s r = if str_eq id "" then error 400 s else r

  unfoldable pub handle_create_node :
      ℕ → Stamp → Stamp → Option CreateNodeRequest → ApiState B → Response B
  handle_create_node now st1 st2 none s = error 400 s
  handle_create_node now st1 st2 (some r) s =
      if not (node_request_ok r)
      then error 400 s
      else respond 201 (λ u. node_body (dated now (requested_node r))) s
          (register_node b now st1 st2 (some (requested_node r)) s.kg)

  unfoldable pub handle_get_node : String → ApiState B → Response B
  handle_get_node id s = with_id id s (respond 200 node_body s (stored (get_node id) s.kg))

  unfoldable pub handle_update_node :
      ℕ → Stamp → Stamp → String → Option (List (String × Value)) → ApiState B → Response B
  handle_update_node now st1 st2 id none s = error 400 s
  handle_update_node now st1 st2 id (some []) s = error 400 s
  handle_update_node now st1 st2 id (some (c ∷ cs)) s =
      with_id id s (respond 200 node_body s (update_node b now st1 st2 id (c ∷ cs) s.kg))

  abbrev pub then_delete : Stamp → String → ApiState B → Answer Node × KgService B → Response B
  then_delete st id s (err e, kg) = error (service_error e) (record s { kg = kg })
  then_delete st id s (ok n, kg) = respond 204 (λ u. empty) s (delete_node b by_age st id kg)

  unfoldable pub handle_delete_node : Stamp → String → ApiState B → Response B
  handle_delete_node st id s = with_id id s (then_delete st id s (stored (get_node id) s.kg))

  unfoldable pub handle_create_relationship :
      ℕ → Stamp → String → String → Option CreateRelationshipRequest → ApiState B → Response B
  handle_create_relationship now st uuid from none s = error 400 s
  handle_create_relationship now st uuid from (some r) s = with_id from s (
      if not (rel_request_ok r)
      then error 400 s
      else respond 201
          (λ u. relationship_body (record (requested_rel uuid from r) { created_at = now })) s
          (create_relationship b now st (some (requested_rel uuid from r)) s.kg))

  unfoldable pub handle_delete_relationship : Stamp → String → ApiState B → Response B
  handle_delete_relationship st id s =
      with_id id s (respond 204 (λ u. empty) s (delete_relationship b st id s.kg))

  unfoldable pub handle_traverse : String → String → String → Option ℕ → ApiState B → Response B
  handle_traverse id direction type depth s = with_id id s (
      respond 200 relationships_body s (
        traverse_graph b by_age id
          (record {
            rel_type = type;
            direction = if str_eq direction "" then "out" else direction;
            max_depth = depth_of depth;
          })
          s.kg))

  abbrev pub with_pipeline :
      ApiState B → Option PriorityQueue → (PriorityQueue → Response B) → Response B
  with_pipeline s none f = error 503 s
  with_pipeline s (some q) f = f q

  abbrev pub send_decoded :
      ℕ → String → Option SendCommandRequest → ApiState B → PriorityQueue → Response B
  send_decoded now uuid none s q = error 400 s
  send_decoded now uuid (some r) s q =
      if str_eq r.satellite_id ""
      then error 400 s
      else if str_eq r.command_type ""
      then error 400 s
      else sent_response uuid s (
          send true uuid now
            (record {
              command_id = uuid;
              satellite_id = r.satellite_id;
              command_type = r.command_type;
              parameters = r.parameters;
            })
            r.priority q)

  -- The handler of a call.
  unfoldable pub handle : Call → ApiState B → Response B
  handle (create_node now st1 st2 body) s = handle_create_node now st1 st2 body s
  handle (get_one_node id) s = handle_get_node id s
  handle (change_node now st1 st2 id body) s = handle_update_node now st1 st2 id body s
  handle (remove_node st id) s = handle_delete_node st id s
  handle (relate now st uuid from body) s = handle_create_relationship now st uuid from body s
  handle (unrelate st id) s = handle_delete_relationship st id s
  handle (traverse id direction type depth) s = handle_traverse id direction type depth s
  handle (send_command now uuid body) s = with_pipeline s s.queue (send_decoded now uuid body s)
  handle (command_status id) s =
      with_pipeline s s.queue (λ q. with_id id s (status_response s (get_status q id)))
  handle (cancel_command id) s =
      with_pipeline s s.queue (λ q. with_id id s (cancel_response id s (cancel q id)))

  abbrev pub guarded : Option ℕ → Call → ApiState B → Response B
  guarded (some code) c s = error code s
  guarded none c s = handle c s

  -- A request at a time, through what stands before its handler.
  unfoldable pub serve : Option Authenticator → ℕ → Headers → Call → ApiState B → Response B
  serve auth now h c s = guarded (guard auth now (endpoint c) h) c s

  -- The state after a sequence of requests, whatever they are answered.
  unfoldable pub run_requests :
      Option Authenticator → List (ℕ × Headers × Call) → ApiState B → ApiState B
  run_requests auth [] s = s
  run_requests auth ((now, h, c) ∷ rest) s = run_requests auth rest (serve auth now h c s).1

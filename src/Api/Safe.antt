-- ===== src/Api/Safe.antt =====
-- What requests to the REST API can do to the graph and to the command queue.
use openspace_os_core.Base.{
  ℕ, ◌≡◌, refl, ◌≢◌, ◌↔◌, sym, subst, String, true, not, Option, none, some, List, [], ◌∷◌, arith,
  str_eq, if_cases,
}
use openspace_os_core.Event.{Value}
use openspace_os_core.Bus.{MessageBus}
use openspace_os_core.Model.{Node, Relationship, validate_node}
use openspace_os_core.Graph.{Answer, ok, err, Database}
use openspace_os_core.Graph.Rules.{Rearranges, good, bad, Ends-weaken}
use openspace_os_core.Graph.Consistent.{IsConsistent}
use openspace_os_core.Graph.Nodes.{get_node}
use openspace_os_core.Graph.Relationships.{TraverseOptions}
use openspace_os_core.Graph.Repositories.{Keeps, get_node-Keeps}
use openspace_os_core.Graph.Traversal.{traverse_lem}
use openspace_os_core.Graph.Service.{KgService, Stamp, dated, stored, with_db, traverse_graph}
use openspace_os_core.Graph.Service.Integrity.{
  Request, register, change, delete, serve_all, serve_all-IsConsistent,
}
use openspace_os_core.Graph.Service.Integrity
use openspace_os_core.Command.Queue.{PriorityQueue}
use openspace_os_core.Command.Pipeline.Kept.{send-IsValid, cancel-IsValid}
use openspace_os_core.Command.Queue.Valid.{IsValid}
use openspace_os_core.Command.Pipeline.{
  Sent, accepted, refused, CommandStatus, CancelCheck, may_cancel, not_found, not_pending,
}
use openspace_os_core.Api.{Headers, Authenticator, guard}
use openspace_os_core.Api.Handlers
use openspace_os_core.Api.Handlers.{
  ApiState, Call, Response, Body, CreateNodeRequest, SendCommandRequest, CreateRelationshipRequest,
  node_request_ok, requested_node, endpoint, handle, guarded, serve, error, respond, sent_response,
  cancel_response, handle_create_node, handle_get_node, handle_update_node, handle_delete_node,
  handle_create_relationship, handle_delete_relationship, handle_traverse, then_delete,
  with_pipeline, send_decoded, create_node, get_one_node, change_node, remove_node, send_command,
  command_status, cancel_command, run_requests, rel_request_ok, requested_rel, status_response,
}

-- At a time that is not zero, CreateNode's checks of a body pass exactly when the graph's service
-- accepts the node that is made of it.
node_request_ok_iff :
    (now : ℕ) (r : CreateNodeRequest)
    → now ≢ 0
    → (node_request_ok r ≡ true) ↔ (validate_node (dated now (requested_node r)) ≡ none)
unfolding node_request_ok validate_node
node_request_ok_iff now r h = ((λ g. ground arith), (λ g. ground arith))

abbrev pub QueueIsValid : Option PriorityQueue → Type 0
QueueIsValid none = Unit
QueueIsValid (some q) = IsValid q

-- The graph's tables are consistent, and the command queue is well formed.
pub record IsSound {B : Type 0} (s : ApiState B) : Type 0 where
  pub graph : IsConsistent s.kg.db.tables
  pub commands : QueueIsValid s.queue

module _ {B : Type 0} where
  respond-IsSound :
      {A : Type 0} (code : ℕ) (f : A → Body) (s : ApiState B) (r : Answer A × KgService B)
      → QueueIsValid s.queue
      → IsConsistent r.1.db.tables
      → IsSound (respond code f s r).1
  respond-IsSound code f s (err e, kg) v c = record { graph = c; commands = v }
  respond-IsSound code f s (ok a, kg) v c = record { graph = c; commands = v }

  sent_response-IsSound :
      (id : String) (s : ApiState B) (r : Sent)
      → IsSound s
      → ((q : PriorityQueue) → r ≡ accepted q → IsValid q)
      → IsSound (sent_response id s r).1
  sent_response-IsSound id s (accepted q) h k = record { graph = h.graph; commands = k q refl }
  sent_response-IsSound id s (refused e) h k = h

  cancel_response-IsSound :
      (id : String) (s : ApiState B) (r : CancelCheck × PriorityQueue)
      → IsSound s
      → IsValid r.1
      → IsSound (cancel_response id s r).1
  cancel_response-IsSound id s (may_cancel a, q) h v = record { graph = h.graph; commands = v }
  cancel_response-IsSound id s (not_pending k t, q) h v = record { graph = h.graph; commands = v }
  cancel_response-IsSound id s (not_found k, q) h v = record { graph = h.graph; commands = v }

  status_response-IsSound :
      (s : ApiState B) (r : Option CommandStatus) → IsSound s → IsSound (status_response s r).1
  status_response-IsSound s none h = h
  status_response-IsSound s (some c) h = h

  stored-IsConsistent :
      {A : Type 0} (s : KgService B) {r : Answer A × Database}
      → Keeps r
      → IsConsistent (with_db s r).1.db.tables
  stored-IsConsistent s (good c) = c
  stored-IsConsistent s (bad c) = c

  get_node-kept :
      (id : String) (s : KgService B)
      → IsConsistent s.db.tables
      → IsConsistent (stored (get_node id) s).1.db.tables
  get_node-kept id s c = stored-IsConsistent s (get_node-Keeps s.db c id)

-- (`ORDER BY` only rearranges rows.)
module _ {B : Type 0} (b : MessageBus B) {by_age : List Relationship → List Relationship}
    (sorts : Rearranges by_age) where
  served :
      (r : Request) (s : KgService B)
      → IsConsistent s.db.tables
      → IsConsistent (Integrity.serve b by_age r s).db.tables
  unfolding serve_all
  served r s c = serve_all-IsConsistent b by_age sorts (r ∷ []) s c

  traverse-kept :
      (id : String) (o : TraverseOptions) (s : KgService B)
      → IsConsistent s.db.tables
      → IsConsistent (traverse_graph b by_age id o s).1.db.tables
  unfolding traverse_graph
  traverse-kept id o s c = stored-IsConsistent s (
      Ends-weaken (traverse_lem sorts id o s.db)
        (λ _ d (same, _, _). subst IsConsistent (sym same) c)
        (λ d same. subst IsConsistent (sym same) c))

  module _ (s : ApiState B) (h : IsSound s) where
    with_id-IsSound :
        (id : String) (r : Response B) → IsSound r.1 → IsSound (Handlers.with_id b by_age id s r).1
    with_id-IsSound id r k =
        if_cases (λ (x : Response B). IsSound x.1) (str_eq id "") (λ _. h) (λ _. k)

    with_pipeline-IsSound :
        (f : PriorityQueue → Response B)
        → ((q : PriorityQueue) → IsValid q → IsSound (f q).1)
        → (x : Option PriorityQueue) → QueueIsValid x
        → IsSound (with_pipeline b by_age s x f).1
    with_pipeline-IsSound f k none v = h
    with_pipeline-IsSound f k (some q) v = k q v

    create_node-IsSound :
        (now : ℕ) (st1 st2 : Stamp) (body : Option CreateNodeRequest)
        → IsSound (handle_create_node b by_age now st1 st2 body s).1
    unfolding handle_create_node Integrity.serve
    create_node-IsSound now st1 st2 none = h
    create_node-IsSound now st1 st2 (some r) =
        if_cases (λ (x : Response B). IsSound x.1) (not (node_request_ok r)) (λ _. h)
          (λ _.
            respond-IsSound _ _ s _ h.commands
              (served (register now st1 st2 (some (requested_node r))) s.kg h.graph))

    get_node-IsSound : (id : String) → IsSound (handle_get_node b by_age id s).1
    unfolding handle_get_node
    get_node-IsSound id =
        with_id-IsSound id _ (respond-IsSound _ _ s _ h.commands (get_node-kept id s.kg h.graph))

    update_node-IsSound :
        (now : ℕ) (st1 st2 : Stamp) (id : String) (body : Option (List (String × Value)))
        → IsSound (handle_update_node b by_age now st1 st2 id body s).1
    unfolding handle_update_node Integrity.serve
    update_node-IsSound now st1 st2 id none = h
    update_node-IsSound now st1 st2 id (some []) = h
    update_node-IsSound now st1 st2 id (some (c ∷ cs)) =
        with_id-IsSound id _ (
          respond-IsSound _ _ s _ h.commands (served (change now st1 st2 id (c ∷ cs)) s.kg h.graph))

    then_delete-IsSound :
        (st : Stamp) (id : String) (r : Answer Node × KgService B)
        → IsConsistent r.1.db.tables
        → IsSound (then_delete b by_age st id s r).1
    unfolding Integrity.serve
    then_delete-IsSound st id (err e, kg) c = record { graph = c; commands = h.commands }
    then_delete-IsSound st id (ok n, kg) c =
        respond-IsSound _ _ s _ h.commands (served (delete st id) kg c)

    delete_node-IsSound :
        (st : Stamp) (id : String) → IsSound (handle_delete_node b by_age st id s).1
    unfolding handle_delete_node
    delete_node-IsSound st id =
        with_id-IsSound id _ (then_delete-IsSound st id _ (get_node-kept id s.kg h.graph))

    create_relationship-IsSound :
        (now : ℕ) (st : Stamp) (uuid from : String) (body : Option CreateRelationshipRequest)
        → IsSound (handle_create_relationship b by_age now st uuid from body s).1
    unfolding handle_create_relationship Integrity.serve
    create_relationship-IsSound now st uuid from none = h
    create_relationship-IsSound now st uuid from (some r) = with_id-IsSound from _ (
        if_cases (λ (x : Response B). IsSound x.1) (not (rel_request_ok r)) (λ _. h)
          (λ _.
            respond-IsSound _ _ s _ h.commands
              (served (Integrity.relate now st (some (requested_rel uuid from r))) s.kg h.graph)))

    delete_relationship-IsSound :
        (st : Stamp) (id : String) → IsSound (handle_delete_relationship b by_age st id s).1
    unfolding handle_delete_relationship Integrity.serve
    delete_relationship-IsSound st id =
        with_id-IsSound id _
          (respond-IsSound _ _ s _ h.commands (served (Integrity.unrelate st id) s.kg h.graph))

    traverse-IsSound :
        (id direction type : String) (depth : Option ℕ)
        → IsSound (handle_traverse b by_age id direction type depth s).1
    unfolding handle_traverse
    traverse-IsSound id direction type depth =
        with_id-IsSound id _ (respond-IsSound _ _ s _ h.commands (traverse-kept id _ s.kg h.graph))

    send_decoded-IsSound :
        (now : ℕ) (uuid : String) (body : Option SendCommandRequest) (q : PriorityQueue)
        → IsValid q
        → IsSound (send_decoded b by_age now uuid body s q).1
    send_decoded-IsSound now uuid none q v = h
    send_decoded-IsSound now uuid (some r) q v =
        if_cases (λ (x : Response B). IsSound x.1) (str_eq r.satellite_id "") (λ _. h)
          (λ _.
            if_cases (λ (x : Response B). IsSound x.1) (str_eq r.command_type "") (λ _. h)
              (λ _.
                sent_response-IsSound uuid s _ h
                  (λ q' e. send-IsValid now uuid _ r.priority q q' v e)))

    handle-IsSound : (c : Call) → IsSound (handle b by_age c s).1
    unfolding handle
    handle-IsSound (create_node now st1 st2 body) = create_node-IsSound now st1 st2 body
    handle-IsSound (get_one_node id) = get_node-IsSound id
    handle-IsSound (change_node now st1 st2 id body) = update_node-IsSound now st1 st2 id body
    handle-IsSound (remove_node st id) = delete_node-IsSound st id
    handle-IsSound (Handlers.relate now st uuid from body) =
        create_relationship-IsSound now st uuid from body
    handle-IsSound (Handlers.unrelate st id) = delete_relationship-IsSound st id
    handle-IsSound (Handlers.traverse id direction type depth) =
        traverse-IsSound id direction type depth
    handle-IsSound (send_command now uuid body) =
        with_pipeline-IsSound _ (send_decoded-IsSound now uuid body) s.queue h.commands
    handle-IsSound (command_status id) =
        with_pipeline-IsSound _ (λ q v. with_id-IsSound id _ (status_response-IsSound s _ h))
          s.queue h.commands
    handle-IsSound (cancel_command id) =
        with_pipeline-IsSound _
          (λ q v. with_id-IsSound id _ (cancel_response-IsSound id s _ h (cancel-IsValid q id v)))
          s.queue h.commands

    guarded-IsSound : (g : Option ℕ) (c : Call) → IsSound (guarded b by_age g c s).1
    guarded-IsSound none c = handle-IsSound c
    guarded-IsSound (some code) c = h

  serve-IsSound :
      (auth : Option Authenticator) (now : ℕ) (headers : Headers) (c : Call) (s : ApiState B)
      → IsSound s
      → IsSound (serve b by_age auth now headers c s).1
  unfolding serve
  serve-IsSound auth now headers c s h = guarded-IsSound s h (guard auth now (endpoint c) headers) c

  -- Whatever requests are served one after another, with or without authentication, and wherever the
  -- driver or the bus fails: if the tables are consistent and the command queue is well formed or absent
  -- at first, so they are at the end. (`ORDER BY` only rearranges rows.)
  pub run_requests-IsSound :
      (auth : Option Authenticator) (requests : List (ℕ × Headers × Call)) (s : ApiState B)
      → IsSound s
      → IsSound (run_requests b by_age auth requests s)
  unfolding run_requests
  run_requests-IsSound auth [] s h = h
  run_requests-IsSound auth ((now, headers, c) ∷ rest) s h =
      run_requests-IsSound auth rest _ (serve-IsSound auth now headers c s h)

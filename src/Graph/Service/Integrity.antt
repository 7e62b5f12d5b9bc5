-- ===== src/Graph/Service/Integrity.antt =====
-- Every request to the service of internal/core/kg_service.go keeps the graph consistent.
use openspace_os_core.Base.{
  if◌then◌else◌, ◌==◌, ℕ, String, Option, none, some, List, [], ◌∷◌, sym, subst, str_eq, inl, inr,
  if_cases,
}
use openspace_os_core.Event.{Value, Payload}
use openspace_os_core.Bus.{MessageBus}
use openspace_os_core.Model.{Node, Relationship}
use openspace_os_core.Model.{validate_node, validate_relationship}
use openspace_os_core.Graph.{return, Database, Answer, M}
use openspace_os_core.Graph.Rules.{good, bad, Ends-and_then, Ends-weaken}
use openspace_os_core.Graph.Consistent.{IsConsistent}
use openspace_os_core.Graph.Repositories.{
  Keeps, create_node-Keeps, get_node-Keeps, update_node_row-Keeps, delete_rel-Keeps,
  create_rel-Keeps,
}
use openspace_os_core.Graph.Service.{
  dated, apply_changes, state_updated_map, relationship_deleted_map, node_registered_map,
  node_updated_map, relationship_created_map, node_registered, node_updated, KgService, Stamp,
  HookCall, with_db, trigger, publish_event, register_node, update_node, report_status, delete_node,
  create_relationship, delete_relationship,
}
use openspace_os_core.Graph.Rules.{Rearranges}
use openspace_os_core.Graph.Service.Calls.{
  InStore-return, InStore, InStore-with_db, InStore-trigger, InStore-when_valid,
  InStore-publish_event,
}
use openspace_os_core.Graph.Service.Atomic.{delete_node_in_tx-deleted, delete_node_no_tx_lem}
use openspace_os_core.Graph.Service.Modes.{deleted-IsConsistent}

-- A request that changes the graph, with the ids and times that it is served with.
pub data Request : Type 0 where
  register : (now : ℕ) (st1 st2 : Stamp) (node : Option Node) → Request
  change : (now : ℕ) (st1 st2 : Stamp) (id : String) (changes : List (String × Value)) → Request
  delete : (st : Stamp) (id : String) → Request
  relate : (now : ℕ) (st : Stamp) (rel : Option Relationship) → Request
  unrelate : (st : Stamp) (id : String) → Request

module _ {B : Type 0} (b : MessageBus B) (by_age : List Relationship → List Relationship) where
  -- The state after a request, whatever its answer.
  unfoldable pub serve : Request → KgService B → KgService B
  serve (register now st1 st2 node) s = (register_node b now st1 st2 node s).1
  serve (change now st1 st2 id changes) s = (update_node b now st1 st2 id changes s).1
  serve (delete st id) s = (delete_node b by_age st id s).1
  serve (relate now st rel) s = (create_relationship b now st rel s).1
  serve (unrelate st id) s = (delete_relationship b st id s).1

  unfoldable pub serve_all : List Request → KgService B → KgService B
  serve_all [] s = s
  serve_all (r ∷ rs) s = serve_all rs (serve r s)

  -- A call that ends consistently, well or badly.
  abbrev Sound : {A : Type 0} → Answer A × KgService B → Type 0
  Sound = InStore (λ _ t. IsConsistent t) IsConsistent

  Sound-state : {A : Type 0} {r : Answer A × KgService B} → Sound r → IsConsistent r.1.db.tables
  Sound-state (good h) = h
  Sound-state (bad h) = h

  Sound-stored :
      {A : Type 0} (s : KgService B) {r : Answer A × Database} → Keeps r → Sound (with_db s r)
  Sound-stored s h = InStore-with_db (λ _ t. IsConsistent t) IsConsistent s h

  Sound-publish :
      (st : Stamp) (type source : String) (p : Payload) (s : KgService B)
      → IsConsistent s.db.tables
      → Sound (publish_event b st type source p s)
  Sound-publish st type source p s c =
      InStore-publish_event b IsConsistent IsConsistent st type source p s c c

  Sound-trigger :
      (call : HookCall) (s : KgService B) → IsConsistent s.db.tables → Sound (trigger call s)
  Sound-trigger call s c = InStore-trigger IsConsistent IsConsistent s c c call

  module _ (s : KgService B) (c : IsConsistent s.db.tables) where
    register_node-Sound :
        (now : ℕ) (st1 st2 : Stamp) (node : Option Node)
        → Sound (register_node b now st1 st2 node s)
    unfolding register_node
    register_node-Sound now st1 st2 none = bad c
    register_node-Sound now st1 st2 (some node) =
        let n = dated now node in
        let registered = node_registered_map n.node_id n.node_type in
        Ends-and_then _ (InStore-when_valid IsConsistent IsConsistent s c c (validate_node n))
          (λ _ s₁ c₁. Ends-and_then _ (Sound-stored s₁ (create_node-Keeps s₁.db c₁ n)) (λ _ s₂ c₂.
            Ends-and_then _ (Sound-publish st1 "NodeRegistered" n.node_id registered s₂ c₂)
              (λ _ s₃ c₃.
                Ends-and_then _
                  (Sound-publish st2 "StateUpdated" n.node_id
                    (state_updated_map n.node_id "" n.status) s₃ c₃)
                  (λ _ s₄ c₄. Sound-trigger (node_registered n) s₄ c₄))))

    report_status-Sound :
        (st : Stamp) (id old new : String) → Sound (report_status b st id old new s)
    report_status-Sound st id old new =
        if_cases (λ (m : M (KgService B) (Unit {0})). Sound (m s)) (str_eq new old) (λ _. good c)
          (λ _. Sound-publish st "StateUpdated" id (state_updated_map id old new) s c)

    delete_relationship-Sound : (st : Stamp) (id : String) → Sound (delete_relationship b st id s)
    unfolding delete_relationship
    delete_relationship-Sound st id =
        Ends-and_then _ (Sound-stored s (delete_rel-Keeps s.db c id))
          (λ _ s₁ c₁. Sound-publish st "RelationshipDeleted" id (relationship_deleted_map id) s₁ c₁)

    create_relationship-Sound :
        (now : ℕ) (st : Stamp) (rel : Option Relationship)
        → Sound (create_relationship b now st rel s)
    unfolding create_relationship
    create_relationship-Sound now st none = bad c
    create_relationship-Sound now st (some rel) =
        let r = record rel { created_at = if rel.created_at == 0 then now else rel.created_at } in
        Ends-and_then _
          (InStore-when_valid IsConsistent IsConsistent s c c (validate_relationship r))
          (λ _ s₁ c₁.
            Ends-and_then _ (Sound-stored s₁ (get_node-Keeps s₁.db c₁ r.from_node_id)) (λ _ s₂ c₂.
              Ends-and_then _ (Sound-stored s₂ (get_node-Keeps s₂.db c₂ r.to_node_id)) (λ _ s₃ c₃.
                Ends-and_then _ (Sound-stored s₃ (create_rel-Keeps s₃.db c₃ r)) (λ _ s₄ c₄.
                  Sound-publish st "RelationshipCreated" r.from_node_id (relationship_created_map r)
                    s₄ c₄))))

  update_node-Sound :
      (s : KgService B) (c : IsConsistent s.db.tables) (now : ℕ) (st1 st2 : Stamp) (id : String)
      (changes : List (String × Value))
      → Sound (update_node b now st1 st2 id changes s)
  unfolding update_node
  update_node-Sound s c now st1 st2 id [] = bad c
  update_node-Sound s c now st1 st2 id (x ∷ xs) =
      Ends-and_then _ (Sound-stored s (get_node-Keeps s.db c id)) (λ old s₁ c₁.
        let n = record (apply_changes (x ∷ xs) old) { updated_at = now } in
        Ends-and_then _ (Sound-stored s₁ (update_node_row-Keeps s₁.db c₁ n)) (λ _ s₂ c₂.
          Ends-and_then _ (report_status-Sound s₂ c₂ st1 id old.status n.status) (λ _ s₃ c₃.
            Ends-and_then _
              (Sound-publish st2 "NodeUpdated" id (node_updated_map id (x ∷ xs)) s₃ c₃)
              (λ _ s₄ c₄.
                Ends-and_then (λ _. return n) (Sound-trigger (node_updated n (x ∷ xs)) s₄ c₄)
                  (λ _ s₅ c₅. InStore-return IsConsistent IsConsistent s₅ c₅ c₅ n)))))

  module _ (sorts : Rearranges by_age) where
    delete_node-Sound :
        (s : KgService B)
        → IsConsistent s.db.tables
        → (st : Stamp) (id : String) → Sound (delete_node b by_age st id s)
    unfolding delete_node
    delete_node-Sound s c st id =
        let gone = deleted-IsConsistent id s.db.tables c in
        if_cases Sound s.transactional
          (λ _.
            Ends-weaken (delete_node_in_tx-deleted b st id s)
              (λ _ u h. subst IsConsistent (sym h) gone)
              (λ u h. elim h [
                | inl same ↦ subst IsConsistent (sym same) c
                | inr h' ↦ subst IsConsistent (sym h') gone
              ]))
          (λ _.
            Ends-weaken (delete_node_no_tx_lem b sorts st id s c)
              (λ _ u h. subst IsConsistent (sym h) gone) (λ u h. h))

    serve-IsConsistent :
        (r : Request) (s : KgService B)
        → IsConsistent s.db.tables
        → IsConsistent (serve r s).db.tables
    unfolding serve
    serve-IsConsistent (register now st1 st2 node) s c =
        Sound-state (register_node-Sound s c now st1 st2 node)
    serve-IsConsistent (change now st1 st2 id changes) s c =
        Sound-state (update_node-Sound s c now st1 st2 id changes)
    serve-IsConsistent (delete st id) s c = Sound-state (delete_node-Sound s c st id)
    serve-IsConsistent (relate now st rel) s c =
        Sound-state (create_relationship-Sound s c now st rel)
    serve-IsConsistent (unrelate st id) s c = Sound-state (delete_relationship-Sound s c st id)

    -- From consistent tables, whatever requests are served, with or without transactions, and
    -- wherever the driver or the bus fails: no two nodes and no two relationships share an id, and
    -- both ends of every relationship are nodes.
    pub serve_all-IsConsistent :
        (rs : List Request) (s : KgService B)
        → IsConsistent s.db.tables
        → IsConsistent (serve_all rs s).db.tables
    unfolding serve_all
    serve_all-IsConsistent [] s c = c
    serve_all-IsConsistent (r ∷ rs) s c =
        serve_all-IsConsistent rs (serve r s) (serve-IsConsistent r s c)

-- ===== src/Graph/Service/Atomic.antt =====
-- `DeleteNode` of internal/core/kg_service.go, with a transaction and without.
use openspace_os_core.Graph.Service.Calls.{announced, InStore-with_db}
use openspace_os_core.Base.{
  String, List, ◌≡◌, ◌∙◌, ap, sym, subst, ◌⊎◌, inl, inr, Without, keep_if-Without, arith, eq_iff,
}
use openspace_os_core.Bus.{MessageBus}
use openspace_os_core.Model.{Node, Relationship}
use openspace_os_core.Graph.{Tables}
use openspace_os_core.Graph.Rules.{Ends, Ends-and_then, Ends-weaken, OnTables-driver_call}
use openspace_os_core.Graph.Consistent.{IsConsistent}
use openspace_os_core.Graph.Service.{
  without_rels_of, node_deleted, node_deleted_map, KgService, Stamp, delete_node_in_tx,
  delete_node_no_tx,
}
use openspace_os_core.Graph.Rules.{Rearranges}
use openspace_os_core.Graph.Service.Modes.{
  delete_node_row-rows, delete_relationships_of_node-rows, deleted, deleted-IsConsistent,
  in_tx-rows,
}

-- The second tables are the first without the node and without the relationships from and to it.
pub record IsDeleted (id : String) (t u : Tables) : Type 0 where
  pub nodes : Without (λ n. n.node_id ≡ id) t.nodes u.nodes
  pub relationships :
      Without (λ r. (r.from_node_id ≡ id) ⊎ (r.to_node_id ≡ id)) t.relationships u.relationships

deleted-IsDeleted : (id : String) (t u : Tables) → u ≡ deleted id t → IsDeleted id t u
deleted-IsDeleted id t u e = subst (IsDeleted id t) (sym e) (record {
  nodes =
      keep_if-Without (λ (n : Node). n.node_id ≡ id) _
        (λ n h. ground (arith, h, eq_iff n.node_id id))
        (λ n h same. ground (arith, h, same, eq_iff n.node_id id)) t.nodes;
  relationships =
      keep_if-Without (λ (r : Relationship). (r.from_node_id ≡ id) ⊎ (r.to_node_id ≡ id)) _
        (λ r h. ground (arith, h, eq_iff r.from_node_id id, eq_iff r.to_node_id id))
        (λ r h ends. ground (arith, h, ends, eq_iff r.from_node_id id, eq_iff r.to_node_id id))
        t.relationships;
})

module _ {B : Type 0} (b : MessageBus B) where
  pub delete_node_in_tx-deleted :
      (st : Stamp) (id : String) (s : KgService B)
      → Ends
          (λ _ u. u.db.tables ≡ deleted id s.db.tables)
          (λ u. (u.db.tables ≡ s.db.tables) ⊎ (u.db.tables ≡ deleted id s.db.tables))
          (delete_node_in_tx b st id s)
  unfolding delete_node_in_tx
  delete_node_in_tx-deleted st id s =
      let before = s.db.tables in
      let after = deleted id before in
      let Fails : Tables → Type 0 = λ (t : Tables). (t ≡ before) ⊎ (t ≡ after) in
      Ends-and_then _
        (InStore-with_db (λ _ t. t ≡ before) Fails s
          (Ends-weaken (OnTables-driver_call s.db) (λ _ _ h. h) (λ _ h. inl h)))
        (λ _ s₁ same.
          Ends-and_then _
            (InStore-with_db (λ _ t. t ≡ after) Fails s₁
              (Ends-weaken (in_tx-rows id s₁.db) (λ _ _ h. h ∙ ap (deleted id) same)
                (λ _ h. inl (h ∙ same))))
            (λ _ s₂ gone.
              announced b (λ t. t ≡ after) Fails (λ _ h. inr h) st "NodeDeleted" id
                (node_deleted_map id) (node_deleted id) s₂ gone))

  -- In a transaction a delete is all or nothing: on success the node and its relationships are gone
  -- and all else is as it was, and after a failure the tables are as they were, unless only the
  -- event failed, and then they are as after a success.
  pub delete_node_in_tx_atomic :
      (st : Stamp) (id : String) (s : KgService B)
      → Ends
          (λ _ u. IsDeleted id s.db.tables u.db.tables)
          (λ u. (u.db.tables ≡ s.db.tables) ⊎ IsDeleted id s.db.tables u.db.tables)
          (delete_node_in_tx b st id s)
  delete_node_in_tx_atomic st id s =
      Ends-weaken (delete_node_in_tx-deleted st id s)
        (λ _ u h. deleted-IsDeleted id s.db.tables u.db.tables h)
        (λ u h. elim h [
          | inl same ↦ inl same
          | inr gone ↦ inr (deleted-IsDeleted id s.db.tables u.db.tables gone)
        ])

  module _ {by_age : List Relationship → List Relationship} (sorts : Rearranges by_age) where
    -- Without a transaction a delete that succeeds does the same to consistent tables, and one that
    -- fails midway leaves them consistent.
    pub delete_node_no_tx_lem :
        (st : Stamp) (id : String) (s : KgService B)
        → IsConsistent s.db.tables
        → Ends
            (λ _ u. u.db.tables ≡ deleted id s.db.tables)
            (λ u. IsConsistent u.db.tables)
            (delete_node_no_tx b by_age st id s)
    unfolding delete_node_no_tx
    delete_node_no_tx_lem st id s c =
        let before = s.db.tables in
        Ends-and_then _
          (InStore-with_db (λ _ t. t ≡ without_rels_of id before) IsConsistent s
            (delete_relationships_of_node-rows sorts id s.db c))
          (λ _ s₁ same.
            Ends-and_then _
              (InStore-with_db (λ _ t. t ≡ deleted id before) IsConsistent s₁
                (delete_node_row-rows sorts id before s₁.db c same))
              (λ _ s₂ gone.
                announced b (λ t. t ≡ deleted id before) IsConsistent
                  (λ t h. subst IsConsistent (sym h) (deleted-IsConsistent id before c)) st
                  "NodeDeleted" id (node_deleted_map id) (node_deleted id) s₂ gone))

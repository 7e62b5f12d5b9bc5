-- ===== src/Graph/Repositories.antt =====
-- The repositories keep the tables consistent, on every answer of the driver
-- (internal/core/node_repo_sqlite.go and rel_repo_sqlite.go).
use openspace_os_core.Base.{String, true, Option, none, some, ◌≡◌, refl, sym, subst, arith}
use openspace_os_core.Model.{Node, Relationship}
use openspace_os_core.Graph.{Tables, Database, Answer, ok, M, ◌>>◌, driver_call}
use openspace_os_core.Graph.Nodes.{
  create_node, get_node, update_node_row, find_node, insert_node, found_node, updated_node,
}
use openspace_os_core.Graph.Relationships.{
  create_rel, delete_rel, find_rel, insert_rel, counted, ensure_node_exists,
}
use openspace_os_core.Graph.Rules.{Ends, good, bad, Ends-and_then, OnTables, OnTables-statement}
use openspace_os_core.Graph.Consistent.{
  IsConsistent, IsLinked, has_node, find_node-some, insert_node-IsConsistent,
  write_node-IsConsistent, insert_rel-IsConsistent, without_rels-IsConsistent,
}

-- A call keeps the tables consistent, whether it succeeds or fails.
abbrev pub Keeps : {A : Type 0} → Answer A × Database → Type 0
Keeps = OnTables (λ _ t. IsConsistent t) IsConsistent

-- A call that starts with a call of the driver.
pub after_driver_call :
    {A : Type 0} (Q : A → Tables → Type 0) (E P : Tables → Type 0) (m : M Database A) (d : Database)
    → P d.tables
    → E d.tables
    → ((e : Database) → P e.tables → OnTables Q E (m e))
    → OnTables Q E ((driver_call >> m) d)
after_driver_call Q E P m d h before next =
    Ends-and_then (λ _. m)
      (OnTables-statement {Q = λ _ t. P t} {E = E} (λ t. (ok tt, t)) d before (good h))
      (λ _ e k. next e k)

module _ (t : Tables) (c : IsConsistent t) where
  inserted_node :
      (n : Node) (o : Option Node)
      → find_node n.node_id t.nodes ≡ o
      → Ends (λ _ u. IsConsistent u) IsConsistent (insert_node n t o)
  inserted_node n none e = good (insert_node-IsConsistent n t c e)
  inserted_node n (some old) e = bad c

  updated :
      (n : Node) (o : Option Node) → Ends (λ _ u. IsConsistent u) IsConsistent (updated_node n t o)
  updated n none = bad c
  updated n (some old) = good (write_node-IsConsistent n t c)

  pub found :
      (id : String) (o : Option Node)
      → Ends (λ _ u. IsConsistent u) IsConsistent (found_node id t o)
  found id none = bad c
  found id (some n) = good c

  counted_node :
      (id : String) (o : Option Node)
      → find_node id t.nodes ≡ o
      → Ends (λ _ u. (u ≡ t) × (has_node id t.nodes ≡ true)) IsConsistent (counted id t o)
  counted_node id none e = bad c
  counted_node id (some n) e = good (refl, find_node-some id n t.nodes e)

  inserted_rel :
      (r : Relationship) (o : Option Relationship)
      → find_rel r.rel_id t.relationships ≡ o
      → IsLinked t.nodes r
      → Ends (λ _ u. IsConsistent u) IsConsistent (insert_rel r t o)
  inserted_rel r none e link = good (insert_rel-IsConsistent r t c e link)
  inserted_rel r (some old) e link = bad c

module _ (d : Database) (c : IsConsistent d.tables) where
  pub create_node-Keeps : (n : Node) → Keeps (create_node (some n) d)
  unfolding create_node
  create_node-Keeps n =
      after_driver_call (λ _ t. IsConsistent t) IsConsistent IsConsistent _ d c c
        (λ e k. OnTables-statement _ e k (inserted_node e.tables k n _ refl))

  pub get_node-Keeps : (id : String) → Keeps (get_node id d)
  unfolding get_node
  get_node-Keeps id =
      after_driver_call (λ _ t. IsConsistent t) IsConsistent IsConsistent _ d c c
        (λ e k. OnTables-statement _ e k (found e.tables k id _))

  pub update_node_row-Keeps : (n : Node) → Keeps (update_node_row (some n) d)
  unfolding update_node_row
  update_node_row-Keeps n =
      after_driver_call (λ _ t. IsConsistent t) IsConsistent IsConsistent _ d c c
        (λ e k. OnTables-statement _ e k (updated e.tables k n _))

  pub delete_rel-Keeps : (id : String) → Keeps (delete_rel id d)
  unfolding delete_rel
  delete_rel-Keeps id =
      after_driver_call (λ _ t. IsConsistent t) IsConsistent IsConsistent _ d c c
        (λ e k. OnTables-statement _ e k (good (without_rels-IsConsistent _ e.tables k)))

  ensure_node_exists-has :
      (id : String)
      → OnTables
          (λ _ t. (t ≡ d.tables) × (has_node id d.tables.nodes ≡ true))
          IsConsistent
          (ensure_node_exists id d)
  unfolding ensure_node_exists
  ensure_node_exists-has id = OnTables-statement _ d c (counted_node d.tables c id _ refl)

pub create_rel-Keeps :
    (d : Database) → IsConsistent d.tables → (r : Relationship) → Keeps (create_rel (some r) d)
unfolding create_rel
create_rel-Keeps d c r =
    after_driver_call (λ _ t. IsConsistent t) IsConsistent IsConsistent _ d c c
      (λ e k. Ends-and_then _ (ensure_node_exists-has e k r.from_node_id) (λ _ e₁ (same₁, from).
        let k₁ = subst IsConsistent (sym same₁) k in
        Ends-and_then _ (ensure_node_exists-has e₁ k₁ r.to_node_id) (λ _ e₂ (same₂, to).
          let k₂ = subst IsConsistent (sym same₂) k₁ in
          OnTables-statement _ e₂ k₂ (
            inserted_rel e₂.tables k₂ r _ refl
              (ground (arith, from, same₁, same₂), ground (arith, to, same₂))))))

-- ===== src/Graph/Service/Modes.antt =====
-- The two ways of `DeleteNode` of internal/core/kg_service.go, statement by statement.
use openspace_os_core.Base.{
  String, Bool, not, ◌||◌, ◌&&◌, Option, none, some, List, [], ◌∷◌, ◌≡◌, ◌∙◌, ap, refl, sym, subst,
  arith, str_eq, All, keep_if, keep_if-keep_if, keep_if_agree,
}
use openspace_os_core.Model.{Node, Relationship}
use openspace_os_core.Graph.{Tables, Database, Answer, roll_back_to}
use openspace_os_core.Graph.Nodes.{without_node, delete_node_row}
use openspace_os_core.Graph.Relationships.{
  delete_rel, without_rels, list_outgoing, list_incoming, list_by_node, of_type,
}
use openspace_os_core.Graph.Rules.{
  Rearranges, Ends, good, bad, Ends-and_then, Ends-weaken, OnTables, OnTables-statement,
}
use openspace_os_core.Graph.Consistent.{
  IsConsistent, has_rel, Avoids, without_rels-IsConsistent, without_node-IsConsistent,
}
use openspace_os_core.Graph.Repositories.{after_driver_call}
use openspace_os_core.Graph.Service.{
  without_rels_of, rows_in_tx, deleted_rows, delete_each, delete_relationships_of_node,
}
use openspace_os_core.Graph.Service.Deletion.{
  has_rel-arranged, Chosen, All-Chosen, minus_all, minus_all-keep_if,
}

-- The tables without the node and without its relationships.
abbrev pub deleted : String → Tables → Tables
deleted id t = without_node id (without_rels_of id t)

All-Avoids :
    (id : String) (rs : List Relationship)
    → All (Avoids id) (keep_if (λ r. not (str_eq r.from_node_id id || str_eq r.to_node_id id)) rs)
All-Avoids id [] = tt
All-Avoids id (r ∷ rs) = ground (arith, All-Avoids id rs)

pub deleted-IsConsistent : (id : String) (t : Tables) → IsConsistent t → IsConsistent (deleted id t)
deleted-IsConsistent id t c =
    without_node-IsConsistent id (without_rels_of id t) (without_rels-IsConsistent _ t c)
      (All-Avoids id t.relationships)

module _ (d : Database) (c : IsConsistent d.tables) where
  delete_rel-minus :
      (id : String)
      → OnTables
          (λ _ t. t ≡ without_rels (λ r. str_eq r.rel_id id) d.tables)
          IsConsistent
          (delete_rel id d)
  unfolding delete_rel
  delete_rel-minus id =
      after_driver_call (λ _ t. t ≡ without_rels (λ r. str_eq r.rel_id id) d.tables) IsConsistent
        (λ t. t ≡ d.tables) _ d refl c
        (λ e same.
          OnTables-statement _ e (subst IsConsistent (sym same) c)
            (good (ap (without_rels (λ r. str_eq r.rel_id id)) same)))

-- The tables without the listed rows.
abbrev minus : List Relationship → Tables → Tables
minus rs t = record t { relationships = minus_all rs t.relationships }

delete_each-minus :
    (rs : List Relationship) (d : Database)
    → IsConsistent d.tables
    → OnTables (λ _ t. (t ≡ minus rs d.tables) × IsConsistent t) IsConsistent (delete_each rs d)
unfolding delete_each minus_all
delete_each-minus [] d c = good (refl, c)
delete_each-minus (r ∷ rs) d c = Ends-and_then _ (delete_rel-minus d c r.rel_id) (λ _ e same.
    Ends-weaken
      (delete_each-minus rs e
        (subst IsConsistent (sym same) (without_rels-IsConsistent _ d.tables c)))
      (λ _ s (g, k). (g ∙ ap (minus rs) same, k)) (λ _ g. g))

module _ {by_age : List Relationship → List Relationship} (sorts : Rearranges by_age) where
  abbrev chosen_by : (Relationship → String) → String → Relationship → Bool
  chosen_by column id r = str_eq (column r) id && of_type "" r

  list_by_node-rows :
      (column : Relationship → String) (id : String) (d : Database)
      → IsConsistent d.tables
      → OnTables
          (λ rs t.
            (t ≡ d.tables) × (rs ≡ by_age (keep_if (chosen_by column id) d.tables.relationships)))
          IsConsistent
          (list_by_node by_age column id "" d)
  unfolding list_by_node
  list_by_node-rows column id d c =
      after_driver_call
        (λ rs t.
          (t ≡ d.tables) × (rs ≡ by_age (keep_if (chosen_by column id) d.tables.relationships)))
        IsConsistent (λ t. t ≡ d.tables) _ d refl c
        (λ e same. OnTables-statement _ e (subst IsConsistent (sym same) c) (
          good (
            same,
            ap (λ (t : Tables). by_age (keep_if (chosen_by column id) t.relationships)) same,
          )))

  both_minus :
      (id : String) (t : Tables)
      → IsConsistent t
      → minus_all (by_age (keep_if (chosen_by (λ r. r.to_node_id) id) t.relationships)) (
          minus_all
            (by_age (keep_if (chosen_by (λ r. r.from_node_id) id) t.relationships))
            t.relationships)
        ≡ (without_rels_of id t).relationships
  both_minus id t c =
      minus_all-keep_if (into t.relationships) _
      ∙ (ap (keep_if (λ x. not (has_rel x.rel_id (into t.relationships))))
            (minus_all-keep_if (out t.relationships) t.relationships)
          ∙ (keep_if-keep_if _ _ t.relationships
              ∙ keep_if_agree
                  (λ x.
                    not (has_rel x.rel_id (out t.relationships))
                    && not (has_rel x.rel_id (into t.relationships)))
                  _ t.relationships
                  (agree t.relationships (All-Chosen from_it t.relationships c.rels)
                    (All-Chosen to_it t.relationships c.rels))))
    where
      from_it : Relationship → Bool
      from_it = chosen_by (λ r. r.from_node_id) id

      to_it : Relationship → Bool
      to_it = chosen_by (λ r. r.to_node_id) id

      out : List Relationship → List Relationship
      out rs = by_age (keep_if from_it rs)

      into : List Relationship → List Relationship
      into rs = by_age (keep_if to_it rs)

      agree :
          (rs : List Relationship)
          → All (Chosen from_it (keep_if from_it t.relationships)) rs
          → All (Chosen to_it (keep_if to_it t.relationships)) rs
          → All
              (λ x.
                (not (has_rel x.rel_id (out t.relationships))
                  && not (has_rel x.rel_id (into t.relationships)))
                ≡ not (str_eq x.from_node_id id || str_eq x.to_node_id id))
              rs
      agree [] g h = tt
      agree (r ∷ rs) (e, g) (f, h) = (
        ground (
          arith,
          has_rel-arranged sorts r.rel_id (keep_if from_it t.relationships),
          has_rel-arranged sorts r.rel_id (keep_if to_it t.relationships),
        ),
        agree rs g h,
      )

  abbrev into_of : String → Tables → List Relationship
  into_of id t = by_age (keep_if (chosen_by (λ r. r.to_node_id) id) t.relationships)

  pub delete_relationships_of_node-rows :
      (id : String) (d : Database)
      → IsConsistent d.tables
      → OnTables
          (λ _ t. t ≡ without_rels_of id d.tables)
          IsConsistent
          (delete_relationships_of_node by_age id d)
  unfolding delete_relationships_of_node list_outgoing list_incoming
  delete_relationships_of_node-rows id d c =
      Ends-and_then _ (list_by_node-rows (λ r. r.from_node_id) id d c) (λ out e₁ (same₁, o).
        Ends-and_then _
          (list_by_node-rows (λ r. r.to_node_id) id e₁ (subst IsConsistent (sym same₁) c))
          (λ into e₂ (same₂, i).
            let same = same₂ ∙ same₁ in
            Ends-and_then _ (delete_each-minus out e₂ (subst IsConsistent (sym same) c))
              (λ _ e₃ (same₃, c₃).
                Ends-weaken (delete_each-minus into e₃ c₃)
                  (λ _ s (g, k).
                    g
                    ∙ (ap (minus into) (same₃ ∙ ap (minus out) same)
                        ∙ (ap (λ rs. minus rs (minus out d.tables)) (i ∙ ap (into_of id) same₁)
                            ∙ (ap (λ rs. minus (into_of id d.tables) (minus rs d.tables)) o
                                ∙ ap (λ rs. record d.tables { relationships = rs })
                                    (both_minus id d.tables c)))))
                  (λ _ g. g))))

  pub delete_node_row-rows :
      (id : String) (t : Tables) (d : Database)
      → IsConsistent t
      → d.tables ≡ without_rels_of id t
      → OnTables (λ _ u. u ≡ deleted id t) IsConsistent (delete_node_row id d)
  unfolding delete_node_row
  delete_node_row-rows id t d c same =
      let left = without_rels-IsConsistent _ t c in
      after_driver_call (λ _ u. u ≡ deleted id t) IsConsistent (λ u. u ≡ without_rels_of id t) _ d
        same (subst IsConsistent (sym same) left)
        (λ f same'.
          OnTables-statement _ f (subst IsConsistent (sym same') left)
            (good (ap (without_node id) same')))

deleted_rows-found :
    (id : String) (t u : Tables) (o : Option Node)
    → u ≡ without_rels_of id t
    → Ends (λ _ v. v ≡ deleted id t) (λ _. Unit {0}) (deleted_rows id u o)
deleted_rows-found id t u none same = bad tt
deleted_rows-found id t u (some n) same = good (ap (without_node id) same)

rolled_back :
    {A : Type 0} (Q : A → Tables → Type 0) (t : Tables) {r : Answer A × Database}
    → OnTables Q (λ _. Unit {0}) r
    → OnTables Q (λ u. u ≡ t) (roll_back_to t r)
rolled_back Q t (good h) = good h
rolled_back Q t (bad h) = bad refl

-- The transaction is all or nothing.
pub in_tx-rows :
    (id : String) (d : Database)
    → OnTables (λ _ t. t ≡ deleted id d.tables) (λ t. t ≡ d.tables) (rows_in_tx id d)
in_tx-rows id d =
    rolled_back (λ _ t. t ≡ deleted id d.tables) d.tables
      (Ends-and_then _
        (OnTables-statement {Q = λ _ t. t ≡ without_rels_of id d.tables} {E = λ _. Unit {0}} _ d tt
          (good refl))
        (λ _ e same.
          Ends-and_then _
            (OnTables-statement _ e tt (deleted_rows-found id d.tables e.tables _ same))
            (λ _ f same'. OnTables-statement _ f tt (good same'))))

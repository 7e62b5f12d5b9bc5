-- ===== src/Model/Valid.antt =====
-- Which nodes and relationships the validation of pkg/model accepts.
use openspace_os_core.Base.{
  inr, subst, eq_iff, inl, Bool-cases, ◌≡◌, ◌≢◌, ◌↔◌, arith, String, true, false, none, str_eq,
}
use openspace_os_core.Model.{
  Node, Relationship, one_of, node_types, relationship_types, validate_node, validate_relationship,
}

pub record IsWellFormedNode (n : Node) : Type 0 where
  pub id : str_eq n.node_id "" ≡ false
  pub type : one_of n.node_type node_types ≡ true
  pub name : str_eq n.name "" ≡ false
  pub status : str_eq n.status "" ≡ false
  pub owner : str_eq n.owner_community_id "" ≡ false
  pub created : n.created_at ≢ 0
  pub updated : n.updated_at ≢ 0

pub record IsWellFormedRelationship (r : Relationship) : Type 0 where
  pub id : str_eq r.rel_id "" ≡ false
  pub from : str_eq r.from_node_id "" ≡ false
  pub to : str_eq r.to_node_id "" ≡ false
  pub type : one_of r.rel_type relationship_types ≡ true
  pub created : r.created_at ≢ 0

one_of-nonempty : (t : String) → one_of t node_types ≡ true → str_eq t "" ≡ false
unfolding one_of
one_of-nonempty t h = elim (Bool-cases (str_eq t "")) [
  | inl e ↦
      let same : t ≡ "" = ground (arith, eq_iff t "") in
      let known : false ≡ true = subst (λ x. one_of x node_types ≡ true) same h in
      absurd (ground arith)
  | inr e ↦ e
]

-- A node is accepted exactly when its type is one of the ten known ones and every other required
-- field is set.
pub validate_node_iff : (n : Node) → (validate_node n ≡ none) ↔ IsWellFormedNode n
unfolding validate_node
validate_node_iff n = (
  λ h. record {
    id = ground arith;
    type = ground arith;
    name = ground arith;
    status = ground arith;
    owner = ground arith;
    created = ground arith;
    updated = ground arith;
  },
  λ w. ground (
    arith,
    w.id,
    w.type,
    w.name,
    w.status,
    w.owner,
    w.created,
    w.updated,
    one_of-nonempty n.node_type,
  ),
)

-- A relationship is accepted exactly when its type is one of the nine known ones and every other
-- required field is set.
pub validate_relationship_iff :
    (r : Relationship) → (validate_relationship r ≡ none) ↔ IsWellFormedRelationship r
unfolding validate_relationship
validate_relationship_iff r = (
  λ h. record {
    id = ground arith;
    from = ground arith;
    to = ground arith;
    type = ground arith;
    created = ground arith;
  },
  λ w. ground (arith, w.id, w.from, w.to, w.type, w.created),
)

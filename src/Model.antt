-- ===== src/Model.antt =====
-- The nodes and relationships of the knowledge graph and their validation: pkg/model/node.go,
-- relationship.go and validate.go.
pub mod Valid
use openspace_os_core.Base.{
  ℕ, String, Bool, true, false, not, Option, none, some, if◌then◌else◌, str_eq, ◌==◌, List, [], ◌∷◌,
}
use openspace_os_core.Event.{Payload}

pub record Node : Type 0 where
  pub node_id : String
  pub node_type : String
  pub name : String
  pub status : String
  pub owner_community_id : String
  pub created_at : ℕ
  pub updated_at : ℕ
  pub shard_key : String
  pub federation_id : String
  pub properties : Payload

pub record Relationship : Type 0 where
  pub rel_id : String
  pub from_node_id : String
  pub to_node_id : String
  pub rel_type : String
  pub properties : Payload
  pub created_at : ℕ

-- The cases of a switch.
unfoldable pub one_of : String → List String → Bool
one_of s [] = false
one_of s (t ∷ ts) = if str_eq s t then true else one_of s ts

abbrev pub node_types : List String
node_types =
    "Satellite" ∷ "GroundStation" ∷ "Task" ∷ "Community" ∷ "Mission" ∷ "Antenna" ∷ "Payload"
    ∷ "Telemetry" ∷ "Command" ∷ "Alarm" ∷ []

abbrev pub relationship_types : List String
relationship_types =
    "belongsTo" ∷ "controlledBy" ∷ "owns" ∷ "providesServiceTo" ∷ "executedBy" ∷ "usesResource"
    ∷ "memberOf" ∷ "contains" ∷ "targets" ∷ []

pub data ModelError : Type 0 where
  node_id_empty node_type_empty node_name_empty node_status_empty : ModelError
  owner_community_empty created_at_zero updated_at_zero : ModelError
  rel_id_empty from_node_id_empty to_node_id_empty : ModelError
  node_type_unknown rel_type_unknown : String → ModelError

-- `Validate` of a node; `none` is the nil error.
unfoldable pub validate_node : Node → Option ModelError
validate_node n =
    if str_eq n.node_id ""
    then some node_id_empty
    else if str_eq n.node_type ""
    then some node_type_empty
    else if not (one_of n.node_type node_types)
    then some (node_type_unknown n.node_type)
    else if str_eq n.name ""
    then some node_name_empty
    else if str_eq n.status ""
    then some node_status_empty
    else if str_eq n.owner_community_id ""
    then some owner_community_empty
    else if n.created_at == 0
    then some created_at_zero
    else if n.updated_at == 0
    then some updated_at_zero
    else none

-- `Validate` of a relationship.
unfoldable pub validate_relationship : Relationship → Option ModelError
validate_relationship r =
    if str_eq r.rel_id ""
    then some rel_id_empty
    else if str_eq r.from_node_id ""
    then some from_node_id_empty
    else if str_eq r.to_node_id ""
    then some to_node_id_empty
    else if not (one_of r.rel_type relationship_types)
    then some (rel_type_unknown r.rel_type)
    else if r.created_at == 0
    then some created_at_zero
    else none

-- ===== src/Event/Schema/Valid.antt =====
-- Which events `Validate` accepts (pkg/event/schema.go).
use openspace_os_core.Base.{◌≡◌, ◌≢◌, String, true, false, none, some, List, lookup, All}
use openspace_os_core.Event.{Event, Value}
use openspace_os_core.Event.Schema.{FieldDef, Schema, SchemaRegistry, is_empty_value, run_validator}

-- A required field has a value that is neither nil nor "".
abbrev pub IsFilled : List (String × Value) → FieldDef → Type 0
IsFilled m f =
    f.required ≡ true → (v : Value) × (lookup f.name m ≡ some v) × (is_empty_value v ≡ false)

-- What the event bus asks of an event.
pub record IsConforming (r : SchemaRegistry) (e : Event) : Type 0 where
  pub id : e.event_id ≢ ""
  pub type : e.event_type ≢ ""
  pub source : e.source_node_id ≢ ""
  pub dated : e.timestamp ≢ 0
  pub payload :
      (schema : Schema) × (m : List (String × Value)) × (lookup e.event_type r.schemas
        ≡ some schema)
      × (e.payload ≡ some m)
      × All (IsFilled m) schema.fields
  pub passed : run_validator (lookup e.event_type r.validators) e ≡ none

-- ===== src/Event/Schema.antt =====
-- The registry of event schemas and the validation of events: pkg/event/schema.go, over the payload
-- types of pkg/event/types.go. A payload struct is described to `extractFields` as Go's reflect
-- package shows it: its fields' names, kinds and json tags.
pub mod Defaults
pub mod Valid
pub mod Tests
use Prim.Native.Char.{Char, code}
use openspace_os_core.Base.{
  leb, ℕ, String, Bool, true, false, not, ◌&&◌, ◌||◌, Option, none, some, List, [], ◌∷◌, ◌++◌, map,
  str_eq, if◌then◌else◌, ◌==◌, lookup, insert, keep_if,
}
use openspace_os_core.Event.{Event, Value, null, str, Payload}

pub record FieldDef : Type 0 where
  pub name : String
  pub type : String
  pub required : Bool

pub record Schema : Type 0 where
  pub event_type : String
  pub version : String
  pub fields : List FieldDef

-- A custom validator returns an error's text, or `none`.
abbrev pub Validator : Type 0
Validator = Event → Option String

-- The kinds that `jsonType` tells apart; `time` is time.Time.
pub data Kind : Type 0 where
  time string_kind bool_kind numeric map_kind struct_kind slice_kind other_kind : Kind

unfoldable pub json_type : Kind → String
json_type time = "timestamp"
json_type string_kind = "string"
json_type bool_kind = "boolean"
json_type numeric = "number"
json_type map_kind = "object"
json_type struct_kind = "object"
json_type slice_kind = "array"
json_type other_kind = "any"

pub record StructField : Type 0 where
  pub exported : Bool
  pub tag : String
  pub kind : Kind

-- `strings.Split(tag, ",")`: the first part and the others.
unfoldable pub split_comma : String → String × List String
split_comma String.[] = (String.[], [])
split_comma (String.◌∷◌ c s) =
    let (part, parts) = split_comma s in
    if code c == b',' then (String.[], part ∷ parts) else (String.◌∷◌ c part, parts)

unfoldable pub contains : String → List String → Bool
contains s [] = false
contains s (t ∷ ts) = str_eq t s || contains s ts

-- A space of ASCII. (Go's TrimSpace also takes two spaces beyond ASCII.)
abbrev pub is_space : Char → Bool
is_space c = code c == b' ' || leb 9 (code c) && leb (code c) 13

unfoldable pub trim_left : String → String
trim_left String.[] = String.[]
trim_left (String.◌∷◌ c s) = if is_space c then trim_left s else String.◌∷◌ c s

unfoldable pub trim_right : String → String
trim_right String.[] = String.[]
trim_right (String.◌∷◌ c s) =
    let rest = trim_right s in if is_space c && str_eq rest "" then String.[] else String.◌∷◌ c rest

abbrev pub trim_space : String → String
trim_space s = trim_right (trim_left s)

-- One round of the loop of `extractFields`.
unfoldable pub extract_field : StructField → List FieldDef
unfolding split_comma contains json_type trim_left trim_right
extract_field f =
    let (head, options) = split_comma f.tag in
    let name = trim_space head in
    if not f.exported || (str_eq f.tag "" || (str_eq f.tag "-" || str_eq name ""))
    then []
    else (record {
      name = name;
      type = json_type f.kind;
      required = not (contains "omitempty" (map trim_space options));
    }
        ∷ [])

unfoldable pub extract_fields : List StructField → List FieldDef
unfolding extract_field
extract_fields [] = []
extract_fields (f ∷ fs) = extract_field f ++ extract_fields fs

pub record SchemaRegistry : Type 0 where
  pub schemas : List (String × Schema)
  pub validators : List (String × Option Validator)

abbrev fields_of : Option (List StructField) → List FieldDef
fields_of none = []
fields_of (some fs) = extract_fields fs

module _ (default_payloads : List (String × List StructField)) where
  -- `Register`; the map of the default payload structs is the parameter.
  unfoldable pub register : String → String → Option Validator → SchemaRegistry → SchemaRegistry
  unfolding extract_fields
  register event_type version validator r = record {
    schemas =
        insert event_type
          (record {
            event_type = event_type;
            version = version;
            fields = fields_of (lookup event_type default_payloads);
          })
          r.schemas;
    validators = insert event_type validator r.validators;
  }

  -- `registerDefaults` over the rest of the map.
  unfoldable pub register_defaults :
      List (String × List StructField) → SchemaRegistry → SchemaRegistry
  unfolding register
  register_defaults [] r = r
  register_defaults ((t, fs) ∷ rest) r = register_defaults rest (register t "1.0.0" none r)

unfoldable pub get_schema : SchemaRegistry → String → Option Schema
get_schema r t = lookup t r.schemas

pub data Invalid : Type 0 where
  nil_event empty_event_id empty_event_type empty_source_node_id zero_timestamp : Invalid
  unregistered nil_payload : String → Invalid
  missing_field empty_field : String → String → Invalid
  custom : String → Invalid

unfoldable pub is_empty_value : Value → Bool
is_empty_value null = true
is_empty_value (str s) = str_eq s ""
is_empty_value _ = false

abbrev pub is_nil : Value → Bool
is_nil null = true
is_nil _ = false

-- The check of one required field.
unfoldable pub check_value : String → String → Option Value → Option Invalid
check_value t name none = some (missing_field t name)
check_value t name (some v) =
    if is_nil v
    then some (missing_field t name)
    else if is_empty_value v
    then some (empty_field t name)
    else none

-- The loop over the fields: the first error.
unfoldable pub check_fields : String → List (String × Value) → List FieldDef → Option Invalid
check_fields t payload [] = none
check_fields t payload (f ∷ fs) =
    if not f.required
    then check_fields t payload fs
    else elim (check_value t f.name (lookup f.name payload)) [
      | some e ↦ some e
      | none ↦ check_fields t payload fs
    ]

unfoldable pub run_validator : Option (Option Validator) → Event → Option Invalid
run_validator (some (some v)) e = elim (v e) [ none ↦ none | some msg ↦ some (custom msg) ]
run_validator _ e = none

-- `Validate` from the lookup of the schema on.
unfoldable pub validate_payload : SchemaRegistry → Event → Option Schema → Payload → Option Invalid
validate_payload r e none p = some (unregistered e.event_type)
validate_payload r e (some schema) none = some (nil_payload e.event_type)
validate_payload r e (some schema) (some m) = elim (check_fields e.event_type m schema.fields) [
  | some x ↦ some x
  | none ↦ run_validator (lookup e.event_type r.validators) e
]

-- `Validate`; `none` is the nil error.
unfoldable pub validate : SchemaRegistry → Option Event → Option Invalid
validate r none = some nil_event
validate r (some e) =
    if str_eq e.event_id ""
    then some empty_event_id
    else if str_eq e.event_type ""
    then some empty_event_type
    else if str_eq e.source_node_id ""
    then some empty_source_node_id
    else if e.timestamp == 0
    then some zero_timestamp
    else validate_payload r e (lookup e.event_type r.schemas) e.payload

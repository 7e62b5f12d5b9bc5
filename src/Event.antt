-- ===== src/Event.antt =====
-- The event that the bus carries (pkg/event/event.go) and the payloads that the command pipeline
-- publishes (pkg/event/types.go). A payload's value is what encoding/json leaves of it in a
-- map[string]any: a number stands as its decimal text, a time as its formatted text.
pub mod Schema
use openspace_os_core.Base.{String, Bool, Option, some, none, List, [], ◌∷◌, ℕ}

mutual
  pub data Value : Type 0 where
    null : Value
    str : String → Value
    boolean : Bool → Value
    number : String → Value
    array : Items → Value
    object : Fields → Value

  pub data Items : Type 0 where
    nil : Items
    cons : Value → Items → Items

  pub data Fields : Type 0 where
    end : Fields
    field : String → Value → Fields → Fields

-- map[string]any; `none` is the nil map.
abbrev pub Payload : Type 0
Payload = Option (List (String × Value))

-- An instant is the number of nanoseconds since Go's zero time, so 0 is the zero time.
pub record Event : Type 0 where
  pub event_id : String
  pub event_type : String
  pub timestamp : ℕ
  pub source_node_id : String
  pub trace_id : String
  pub payload : Payload

abbrev pub event_command_sent : String
event_command_sent = "CommandSent"

abbrev pub event_command_acked : String
event_command_acked = "CommandAcked"

pub record CommandSentPayload : Type 0 where
  pub command_id : String
  pub satellite_id : String
  pub command_type : String

pub record CommandAckedPayload : Type 0 where
  pub command_id : String
  pub success : Bool
  pub message : String

-- `SetPayload` on the two payloads: the map that json.Marshal and json.Unmarshal leave.
abbrev pub set_payload_sent : CommandSentPayload → Payload
set_payload_sent p = some (
    ("commandId", str p.command_id)
    ∷ ("satelliteId", str p.satellite_id)
    ∷ ("commandType", str p.command_type)
    ∷ [])

abbrev pub set_payload_acked : CommandAckedPayload → Payload
set_payload_acked p = some (
    ("commandId", str p.command_id)
    ∷ ("success", boolean p.success)
    ∷ ("message", str p.message)
    ∷ [])

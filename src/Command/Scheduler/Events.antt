-- ===== src/Command/Scheduler/Events.antt =====
-- The events of internal/pipeline/command/scheduler.go against the schemas of pkg/event: which of
-- them the bus accepts.
use openspace_os_core.Command.Pipeline
use openspace_os_core.Base.{
  if◌then◌else◌, lookup, ℕ, ◌≡◌, refl, ◌↔◌, arith, String, true, false, none, some, [], ◌∷◌, str_eq,
  ◌≢◌,
}
use openspace_os_core.Event.Schema.{
  empty_field, run_validator, is_empty_value, check_value, check_fields, validate_payload, validate,
  Schema, FieldDef,
}
use openspace_os_core.Event.Schema.Defaults.{new_schema_registry}
use openspace_os_core.Command.Item.{Command, Ack}
use openspace_os_core.Command.Scheduler.{command_acked, command_sent}

required : String → String → FieldDef
required name type = record { name = name; type = type; required = true }

acked_schema : Schema
acked_schema = record {
  event_type = "CommandAcked";
  version = "1.0.0";
  fields =
      required "commandId" "string"
      ∷ required "success" "boolean"
      ∷ required "message" "string"
      ∷ [];
}

schema_of-acked :
    (lookup "CommandAcked" new_schema_registry.schemas ≡ some acked_schema)
    × (lookup "CommandAcked" new_schema_registry.validators ≡ some none)
unfolding new_schema_registry required acked_schema
schema_of-acked = (refl, refl)

sent_schema : Schema
sent_schema = record {
  event_type = "CommandSent";
  version = "1.0.0";
  fields =
      required "commandId" "string"
      ∷ required "satelliteId" "string"
      ∷ required "commandType" "string"
      ∷ [];
}

schema_of-sent :
    (lookup "CommandSent" new_schema_registry.schemas ≡ some sent_schema)
    × (lookup "CommandSent" new_schema_registry.validators ≡ some none)
unfolding new_schema_registry required sent_schema
schema_of-sent = (refl, refl)

acked_payload :
    (event_id : String) (now : ℕ) (cmd : Command) (ack : Ack)
    → let e = command_acked event_id now cmd ack in
      validate_payload new_schema_registry e (some acked_schema) e.payload ≡ (
        if str_eq cmd.command_id ""
        then some (empty_field "CommandAcked" "commandId")
        else if str_eq ack.message ""
        then some (empty_field "CommandAcked" "message")
        else none)
unfolding command_acked validate_payload check_fields check_value is_empty_value run_validator
    acked_schema required
acked_payload event_id now cmd ack = ground (arith, schema_of-acked.1)

-- The built-in schema registry accepts the `CommandAcked` event of an acknowledgement exactly when
-- the event id, the satellite id, the time and the command id are set and the message of the
-- acknowledgement is not empty.
pub acked-valid_iff :
    (event_id : String) (now : ℕ) (cmd : Command) (ack : Ack)
    → (validate new_schema_registry (some (command_acked event_id now cmd ack)) ≡ none)
      ↔ (str_eq event_id "" ≡ false)
        × (str_eq cmd.satellite_id "" ≡ false)
        × (now ≢ 0)
        × (str_eq cmd.command_id "" ≡ false)
        × (str_eq ack.message "" ≡ false)
unfolding validate command_acked
acked-valid_iff event_id now cmd ack =
    let payload = acked_payload event_id now cmd ack in
    rw (schema_of-acked.0) (
      λ h. (
        ground (arith, payload),
        ground (arith, payload),
        ground (arith, payload),
        ground (arith, payload),
        ground (arith, payload),
      ),
      λ h. ground (arith, payload),
    )

sent_payload :
    (event_id : String) (now : ℕ) (cmd : Command)
    → let e = command_sent event_id now cmd in
      validate_payload new_schema_registry e (some sent_schema) e.payload ≡ (
        if str_eq cmd.command_id ""
        then some (empty_field "CommandSent" "commandId")
        else if str_eq cmd.satellite_id ""
        then some (empty_field "CommandSent" "satelliteId")
        else if str_eq cmd.command_type ""
        then some (empty_field "CommandSent" "commandType")
        else none)
unfolding command_sent validate_payload check_fields check_value is_empty_value run_validator
    sent_schema required
sent_payload event_id now cmd = ground (arith, schema_of-sent.1)

-- The built-in schema registry accepts the `CommandSent` event of every command that the pipeline's
-- validator accepts, when the event id and the time are set.
pub sent-valid :
    (event_id : String) (now : ℕ) (cmd : Command)
    → str_eq event_id "" ≡ false
    → now ≢ 0
    → Pipeline.validate (some cmd) ≡ none
    → validate new_schema_registry (some (command_sent event_id now cmd)) ≡ none
unfolding validate command_sent Pipeline.validate
sent-valid event_id now cmd named dated good =
    rw (schema_of-sent.0) (ground (arith, sent_payload event_id now cmd))

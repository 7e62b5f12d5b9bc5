-- ===== src/Event/Schema/Defaults.antt =====
-- The payload structs of pkg/event/types.go, as reflect shows them, and the map `defaultPayloads` of
-- pkg/event/schema.go from event types to them.
use openspace_os_core.Base.{String, true, List, [], ◌∷◌}
use openspace_os_core.Event.Schema.{
  StructField, Kind, time, string_kind, bool_kind, numeric, map_kind, struct_kind, slice_kind,
  SchemaRegistry, register_defaults,
}

abbrev field : String → Kind → StructField
field tag kind = record { exported = true; tag = tag; kind = kind }

abbrev pub telemetry_received_payload : List StructField
telemetry_received_payload =
    field "satelliteId" string_kind
    ∷ field "timestamp" time
    ∷ field "parameters" map_kind
    ∷ field "quality" string_kind
    ∷ []

abbrev pub state_updated_payload : List StructField
state_updated_payload =
    field "nodeId" string_kind
    ∷ field "oldStatus,omitempty" string_kind
    ∷ field "newStatus" string_kind
    ∷ []

abbrev pub node_registered_payload : List StructField
node_registered_payload = field "nodeId" string_kind ∷ field "nodeType" string_kind ∷ []

abbrev pub node_updated_payload : List StructField
node_updated_payload = field "nodeId" string_kind ∷ field "changes" map_kind ∷ []

abbrev pub node_deleted_payload : List StructField
node_deleted_payload = field "nodeId" string_kind ∷ []

abbrev pub relationship_created_payload : List StructField
relationship_created_payload =
    field "relId" string_kind
    ∷ field "fromNodeId" string_kind
    ∷ field "toNodeId" string_kind
    ∷ field "relType" string_kind
    ∷ []

abbrev pub relationship_deleted_payload : List StructField
relationship_deleted_payload = field "relId" string_kind ∷ []

abbrev pub task_status_changed_payload : List StructField
task_status_changed_payload =
    field "taskId" string_kind
    ∷ field "oldStatus,omitempty" string_kind
    ∷ field "newStatus" string_kind
    ∷ []

abbrev pub task_scheduled_payload : List StructField
task_scheduled_payload =
    field "taskId" string_kind ∷ field "satelliteId" string_kind ∷ field "scheduledAt" time ∷ []

abbrev pub health_alarm_payload : List StructField
health_alarm_payload =
    field "nodeId" string_kind ∷ field "severity" string_kind ∷ field "message" string_kind ∷ []

abbrev pub command_sent_payload : List StructField
command_sent_payload =
    field "commandId" string_kind
    ∷ field "satelliteId" string_kind
    ∷ field "commandType" string_kind
    ∷ []

abbrev pub command_acked_payload : List StructField
command_acked_payload =
    field "commandId" string_kind ∷ field "success" bool_kind ∷ field "message" string_kind ∷ []

abbrev pub conjunction_alert_payload : List StructField
conjunction_alert_payload =
    field "primarySatelliteId" string_kind
    ∷ field "secondaryObjectId" string_kind
    ∷ field "probability" numeric
    ∷ field "timeOfClosestApproach" time
    ∷ field "impactAssessment" struct_kind
    ∷ []

abbrev pub resource_match_completed_payload : List StructField
resource_match_completed_payload =
    field "taskId" string_kind
    ∷ field "satelliteId" string_kind
    ∷ field "resourceIds" slice_kind
    ∷ field "matchScore" numeric
    ∷ []

abbrev pub default_payloads : List (String × List StructField)
default_payloads =
    ("TelemetryReceived", telemetry_received_payload)
    ∷ ("StateUpdated", state_updated_payload)
    ∷ ("NodeRegistered", node_registered_payload)
    ∷ ("NodeUpdated", node_updated_payload)
    ∷ ("NodeDeleted", node_deleted_payload)
    ∷ ("RelationshipCreated", relationship_created_payload)
    ∷ ("RelationshipDeleted", relationship_deleted_payload)
    ∷ ("TaskStatusChanged", task_status_changed_payload)
    ∷ ("TaskScheduled", task_scheduled_payload)
    ∷ ("HealthAlarm", health_alarm_payload)
    ∷ ("CommandSent", command_sent_payload)
    ∷ ("CommandAcked", command_acked_payload)
    ∷ ("ConjunctionAlert", conjunction_alert_payload)
    ∷ ("ResourceMatchCompleted", resource_match_completed_payload)
    ∷ []

unfoldable pub new_schema_registry : SchemaRegistry
unfolding register_defaults
new_schema_registry =
    register_defaults default_payloads default_payloads (record { schemas = []; validators = [] })

-- ===== src/Event/Schema/Tests.antt =====
-- The built-in schemas on one event.
use openspace_os_core.Base.{◌≡◌, refl, none, some, [], ◌∷◌}
use openspace_os_core.Event.{Event, str}
use openspace_os_core.Event.Schema.{
  run_validator, is_empty_value, check_value, check_fields, validate_payload, validate,
}
use openspace_os_core.Event.Schema.Defaults.{new_schema_registry}

abbrev test_event : Event
test_event = record {
  event_id = "e1";
  event_type = "StateUpdated";
  timestamp = 7;
  source_node_id = "n1";
  trace_id = "";
  payload = some (("nodeId", str "n1") ∷ ("newStatus", str "idle") ∷ []);
}

-- The old status has `omitempty`, so it may be missing.
optional_old_status : validate new_schema_registry (some test_event) ≡ none
unfolding validate new_schema_registry validate_payload check_fields check_value is_empty_value
    run_validator
optional_old_status = refl

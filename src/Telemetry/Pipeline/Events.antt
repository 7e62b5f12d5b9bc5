-- ===== src/Telemetry/Pipeline/Events.antt =====
-- The events made of frames pass the bus's schema check (internal/pipeline/telemetry/normalizer.go,
-- pkg/event/schema.go).
use openspace_os_core.Base.{
  ℕ, String, true, false, none, some, [], ◌∷◌, ◌≡◌, ◌≢◌, inl, inr, refl, arith, str_eq, Bool-cases,
  if_cases, lookup, subst,
}
use openspace_os_core.Event.{Event}
use openspace_os_core.Event.Schema.{
  Schema, FieldDef, validate, check_fields, check_value, is_empty_value, validate_payload,
  run_validator,
}
use openspace_os_core.Event.Schema.Defaults.{new_schema_registry}
use openspace_os_core.Telemetry.{TelemetryFrame}
use openspace_os_core.Telemetry.Pipeline.{normalize, quality_of, frame_event}

quality-filled : (q : String) → str_eq (quality_of q) "" ≡ false
quality-filled q = if_cases (λ s. str_eq s "" ≡ false) (str_eq q "") (λ _. refl) (λ e. e)

required : String → String → FieldDef
required name type = record { name = name; type = type; required = true }

received_schema : Schema
received_schema = record {
  event_type = "TelemetryReceived";
  version = "1.0.0";
  fields =
      required "satelliteId" "string"
      ∷ required "timestamp" "timestamp"
      ∷ required "parameters" "object"
      ∷ required "quality" "string"
      ∷ [];
}

schema_of-received :
    (lookup "TelemetryReceived" new_schema_registry.schemas ≡ some received_schema)
    × (lookup "TelemetryReceived" new_schema_registry.validators ≡ some none)
unfolding new_schema_registry required received_schema
schema_of-received = (refl, refl)

module _ (show_time : ℕ → String) (id : String) (now : ℕ) (f : TelemetryFrame) where
  received_payload :
      let e = frame_event show_time (id, now) f in
      str_eq f.satellite_id "" ≡ false
      → str_eq (show_time f.timestamp) "" ≡ false
      → validate_payload new_schema_registry e (some received_schema) e.payload ≡ none
  unfolding validate_payload check_fields check_value is_empty_value run_validator received_schema
      required
  received_payload satellite time = ground (arith, schema_of-received.1, quality-filled f.quality)

  frame_event-valid :
      str_eq id "" ≡ false
      → now ≢ 0
      → str_eq f.satellite_id "" ≡ false
      → str_eq (show_time f.timestamp) "" ≡ false
      → validate new_schema_registry (some (frame_event show_time (id, now) f)) ≡ none
  unfolding validate
  frame_event-valid hid hnow satellite time =
      let payload = received_payload satellite time in
      rw (schema_of-received.0) (ground (arith, payload))

  -- What `Normalize` makes of a frame passes the check of the built-in schemas, if the id and the
  -- time's text are not empty and the clock does not show the zero time.
  pub normalize-valid :
      (e : Event)
      → str_eq id "" ≡ false
      → now ≢ 0
      → str_eq (show_time f.timestamp) "" ≡ false
      → normalize show_time (id, now) (some f) ≡ inr e
      → validate new_schema_registry (some e) ≡ none
  unfolding normalize
  normalize-valid e hid hnow time h = elim (Bool-cases (str_eq f.satellite_id "")) [
    | inl none_given ↦ ground (arith, h)
    | inr given ↦
        let same : frame_event show_time (id, now) f ≡ e = ground (arith, h) in
        subst (λ x. validate new_schema_registry (some x) ≡ none) same
          (frame_event-valid hid hnow given time)
  ]

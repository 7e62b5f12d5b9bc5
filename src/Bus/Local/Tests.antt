-- ===== src/Bus/Local/Tests.antt =====
-- A bus with two subscribers, and the theorems on it.
use openspace_os_core.Base.{
  ◌≡◌, refl, pos, false, Option, none, some, List, [], ◌∷◌, ◌++◌, map, String,
}
use openspace_os_core.Event.{Event, str}
use openspace_os_core.Event.Schema.{
  run_validator, is_empty_value, check_value, check_fields, validate_payload, validate,
}
use openspace_os_core.Event.Schema.Defaults.{new_schema_registry}
use openspace_os_core.Store.{append, has_type}
use openspace_os_core.Bus.Local.{
  matches, offer, offer_all, fanout, dispatch, send, LocalBus, publish, close_bus,
}
use openspace_os_core.Bus.Local.Delivery.{Delivers}
use openspace_os_core.Bus.Local.Publish.{
  bus_step, BusStep, publishing, dispatching, run_bus, run_bus-Delivers,
}

abbrev deleted : String → Event
deleted id = record {
  event_id = id;
  event_type = "NodeDeleted";
  timestamp = 7;
  source_node_id = "n1";
  trace_id = "";
  payload = some (("nodeId", str "n1") ∷ []);
}

-- The first subscriber wants every event, the second one only deletions and has room for one.
abbrev test_bus : LocalBus
test_bus = record {
  store = record {
    entries = [];
    cfg = record { ttl = pos 50; max_events = pos 9; cleanup_interval = pos 1 };
    closed = false;
  };
  registry = new_schema_registry;
  subscribers =
      record { id = 0; event_types = []; capacity = 4; buffer = [] }
      ∷ record { id = 1; event_types = "NodeDeleted" ∷ []; capacity = 1; buffer = [] }
      ∷ [];
  next_sub_id = 2;
  publish_ch = [];
  done = false;
  dropped_count = 0;
}

-- The second publish comes before the loop has dispatched the first; the last event has no id.
abbrev test_steps : List BusStep
test_steps =
    publishing none "t" 1 (deleted "e1")
    ∷ publishing none "t" 2 (deleted "e2")
    ∷ dispatching
    ∷ publishing none "t" 3 (deleted "")
    ∷ []

test_accepted :
    (run_bus test_steps test_bus).0
    ≡ record (deleted "e1") { trace_id = "t" } ∷ record (deleted "e2") { trace_id = "t" } ∷ []
unfolding run_bus bus_step publish send append dispatch fanout offer_all offer matches has_type
    validate new_schema_registry validate_payload check_fields check_value is_empty_value
    run_validator
test_accepted = refl

run_bus-Delivers_example :
    let (es, t) = run_bus test_steps test_bus in
    (map (λ m. m.event) t.store.entries ≡ map (λ m. m.event) test_bus.store.entries ++ es)
    × Delivers es test_bus.subscribers (close_bus t).subscribers
run_bus-Delivers_example = run_bus-Delivers test_steps test_bus refl refl

-- A context that is not done.
abbrev live : Option String
live = none

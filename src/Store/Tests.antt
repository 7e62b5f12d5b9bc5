-- ===== src/Store/Tests.antt =====
-- A store of three events, and the theorems on it.
use openspace_os_core.Base.{ℕ, ◌≡◌, refl, pos, false, none, some, List, [], ◌∷◌, String}
use openspace_os_core.Event.{Event}
use openspace_os_core.Store.{
  has_type, MemoryEventStore, MemEntry, QueryOptions, ok, query, matching, match_query, cleanup,
  page,
}
use openspace_os_core.Store.Cleanup.{IsCleaned, cleanup-IsCleaned}

abbrev test_event : String → String → ℕ → Event
test_event id type time = record {
  event_id = id;
  event_type = type;
  timestamp = time;
  source_node_id = "n1";
  trace_id = "";
  payload = none;
}

abbrev stored : Event → ℕ → MemEntry
stored e now = record { event = e; created_at = now }

abbrev test_store : MemoryEventStore
test_store = record {
  entries =
      stored (test_event "e1" "A" 30) 100
      ∷ stored (test_event "e2" "B" 20) 101
      ∷ stored (test_event "e3" "A" 10) 200
      ∷ [];
  cfg = record { ttl = pos 50; max_events = pos 2; cleanup_interval = pos 1 };
  closed = false;
}

abbrev test_options : QueryOptions
test_options = record {
  event_types = "A" ∷ [];
  source_node_id = "";
  start_time = none;
  end_time = some 40;
  limit = pos 5;
  offset = pos 1;
}

-- The second of the two events of type A.
test_query : query none test_options test_store ≡ ok (test_event "e1" "A" 30 ∷ [])
unfolding query page matching match_query has_type
test_query = refl

abbrev one_two_three : List ℕ
one_two_three = 1 ∷ 2 ∷ 3 ∷ []

cleanup-IsCleaned_example :
    (r : ℕ × MemoryEventStore) × (cleanup none 160 test_store ≡ ok r) × IsCleaned 160 test_store r
cleanup-IsCleaned_example = cleanup-IsCleaned 160 test_store refl refl

-- ===== src/Store/Sqlite/Tests.antt =====
-- The theorems on the SQLite store at concrete inputs. The texts here are of one length for the times
-- that are used, but for `clipped`, which leaves out a fraction of zero as RFC3339Nano does.

use openspace_os_core.Base.{
  zero, suc, ap, ◌*◌, ◌/◌, ◌%◌, ◌&&◌, IsSortedBy, ℕ, ◌≡◌, refl, ◌≢◌, pos, String, true, false,
  Option, none, some, List, [], ◌∷◌, arith, ltb, ◌==◌, if◌then◌else◌, str_eq, eq_iff,
}
use openspace_os_core.Event.{Event, Payload}
use openspace_os_core.Store
use openspace_os_core.Store.{MemoryEventStore, StoreConfig, new_memory_event_store}
use openspace_os_core.Store.Sqlite.{
  Texts, SqliteEventStore, ok, query, append, new_sqlite_event_store, to_row,
}
use openspace_os_core.Store.Sqlite.Rows.{IsDocumented, time_of}
use openspace_os_core.Store.Sqlite.Agreement.{store_all, remember_all, query-agrees}
use openspace_os_core.Store.Sqlite.Order.{query-reversed, everything, IsReadable}

-- A text of one mark for each second.
marks : ℕ → String
marks zero = String.[]
marks (suc n) = String.◌∷◌ "1" (marks n)

count_marks : String → ℕ
count_marks String.[] = 0
count_marks (String.◌∷◌ c s) = suc (count_marks s)

count_marks-marks : (n : ℕ) → count_marks (marks n) ≡ n
unfolding marks count_marks
count_marks-marks zero = refl
count_marks-marks (suc n) = ap suc (count_marks-marks n)

abbrev nanos : ℕ
nanos = 1_000_000_000

-- Only the nil payload is written.
abbrev marshal_nil : Payload → Option String
marshal_nil none = some "null"
marshal_nil (some fields) = none

abbrev counted : Texts
counted = record {
  format = λ t. marks (t / 1_000_000_000);
  parse = λ s. some (count_marks s * 1_000_000_000);
  marshal = marshal_nil;
  unmarshal = λ s. some none;
  text_lt = λ s t. ltb (count_marks s) (count_marks t);
}

nil-marshalled : (p : Payload) (s : String) → marshal_nil p ≡ some s → counted.unmarshal s ≡ some p
nil-marshalled none s h = refl
nil-marshalled (some fields) s h = absurd (ground arith)

counted-IsDocumented : IsDocumented counted
counted-IsDocumented = record {
  ordered = λ t u p q.
      rw (count_marks-marks (t / 1_000_000_000), count_marks-marks (u / 1_000_000_000))
        (ground arith);
  parsed = λ t p. rw (count_marks-marks (t / 1_000_000_000)) (ap some (omega arith));
}

abbrev event_at : String → ℕ → Event
event_at id t = record {
  event_id = id;
  event_type = "TaskScheduled";
  timestamp = t;
  source_node_id = "n";
  trace_id = "";
  payload = none;
}

abbrev test_cfg : StoreConfig
test_cfg = record { ttl = pos 10; max_events = pos 1; cleanup_interval = pos 1 }

abbrev test_events : List (ℕ × Event)
test_events = (7, event_at "a" 2_000_000_000) ∷ (8, event_at "b" 1_000_000_000) ∷ []

abbrev test_store : SqliteEventStore
test_store = record {
  rows =
      to_row counted (event_at "a" 2_000_000_000) "null" 7
      ∷ to_row counted (event_at "b" 1_000_000_000) "null" 8
      ∷ [];
  cfg = test_cfg;
  closed = false;
}

test_store_lem : store_all counted test_events (new_sqlite_event_store test_cfg) ≡ ok test_store
unfolding store_all append new_sqlite_event_store
test_store_lem = refl

query-agrees_example :
    (m : MemoryEventStore) × (found : List Event) × (remember_all test_events
        (new_memory_event_store test_cfg)
      ≡ Store.ok m)
    × (query counted none none everything test_store ≡ ok found)
    × (Store.query none everything m ≡ Store.ok found)
query-agrees_example =
    query-agrees counted counted-IsDocumented test_cfg test_events test_store everything
      (omega arith) (((λ e. omega arith), tt), (tt, tt))
      (nil-marshalled none, (nil-marshalled none, tt)) tt tt test_store_lem

-- Half a second is written with its fraction, and a whole second without, as RFC3339Nano does. The
-- comparison is that of the ends "Z" and ".5Z".
abbrev clipped : Texts
clipped = record counted {
  format = λ t. if t % 1_000_000_000 == 0 then "00Z" else "00.5Z";
  parse = λ s. some (if str_eq s "00Z" then 0 else 500_000_000);
  text_lt = λ s t. str_eq s "00.5Z" && str_eq t "00Z";
}

abbrev readable_at :
    (id : String) (t : ℕ)
    → clipped.parse (clipped.format t) ≡ some t
    → IsReadable clipped (event_at id t)
readable_at id t h = record { text = "null"; encoded = refl; decoded = refl; parsed = h }

a-ne-b : ◌≢◌ {A = String} "a" "b"
a-ne-b e = let same : str_eq "a" "b" ≡ true = (eq_iff "a" "b").1 e in cc

query-reversed_example :
    (s : SqliteEventStore) × (store_all clipped
        ((1, event_at "a" 0) ∷ (2, event_at "b" 500_000_000) ∷ [])
        (new_sqlite_event_store test_cfg)
      ≡ ok s)
    × (query clipped none none everything s ≡ ok (event_at "b" 500_000_000 ∷ event_at "a" 0 ∷ []))
    × (¬ IsSortedBy time_of (event_at "b" 500_000_000 ∷ event_at "a" 0 ∷ []))
query-reversed_example =
    query-reversed clipped test_cfg (event_at "a" 0) (event_at "b" 500_000_000) 1 2
      (readable_at "a" 0 refl) (readable_at "b" 500_000_000 refl) a-ne-b (omega arith) refl refl

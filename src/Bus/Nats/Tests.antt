-- ===== src/Bus/Nats/Tests.antt =====
-- The theorems on the NATS bus at concrete inputs.
use openspace_os_core.Base.{
  ℕ, ◌≡◌, refl, pos, String, Bool, true, false, Option, none, some, List, [], ◌∷◌, ◌++◌, arith,
  if◌then◌else◌, str_eq,
}
use openspace_os_core.Event.{Event}
use openspace_os_core.Event.Schema.{trim_left, trim_right}
use openspace_os_core.Store
use openspace_os_core.Store.{MemoryEventStore, query}
use openspace_os_core.Bus.Local.{ReplayOptions, SubscribeOptions, replay_query}
use openspace_os_core.Bus.Nats
use openspace_os_core.Bus.Nats.{
  Reply, ok, replay, Fault, no_fault, no_batch, short_batch, subject_for_event, clean_subject_token,
}
use openspace_os_core.Bus.Nats.Rounds.{replay-terminates}
use openspace_os_core.Bus.Nats.History.{replay-agrees, decode_all}
use openspace_os_core.Bus.Nats.Consumer.{
  takes, NatsSubscriber, NatsBus, Move, SubscriberMove, delivered, advanced, taking, unsubscribing,
  moved, closing, new_subscriber, proceed, panicked, in_next, run, close_returns,
}
use openspace_os_core.Bus.Nats.Consumer.Feed.{
  follow, follow-feeds, wanted, messages, is_alive, held,
}
use openspace_os_core.Bus.Nats.Consumer.Shutdown.{
  close_waits, close_ends, unsubscribe_panics, sweep,
}

abbrev event_at : ℕ → Event
event_at t = record {
  event_id = "e";
  event_type = "Task Done";
  timestamp = t;
  source_node_id = "n";
  trace_id = "";
  payload = none;
}

-- Three texts are events, the others are not.
abbrev read : String → Option Event
read s =
    if str_eq s "one" then some (event_at 1) else if str_eq s "two" then some (event_at 2) else none

abbrev test_messages : List String
test_messages = "one" ∷ "?" ∷ "two" ∷ []

abbrev test_options : ReplayOptions
test_options = record {
  event_types = [];
  source_node_id = "n";
  start_time = none;
  end_time = none;
  limit = pos 1;
}

abbrev test_store : MemoryEventStore
test_store = record {
  entries =
      record { event = event_at 1; created_at = 5 }
      ∷ record { event = event_at 2; created_at = 6 }
      ∷ [];
  cfg = record { ttl = pos 9; max_events = pos 9; cleanup_interval = pos 9 };
  closed = false;
}

test_decoded : decode_all read test_messages ≡ event_at 1 ∷ event_at 2 ∷ []
unfolding decode_all
test_decoded = refl

replay-agrees_example :
    (es : List Event) × (replay read test_options false none none
        (λ n. none)
        (λ n. no_fault)
        test_messages
      ≡ some (ok es))
    × (query none (replay_query test_options) test_store ≡ Store.ok es)
replay-agrees_example =
    replay-agrees read test_options (λ n. none) (λ n. no_fault) test_messages test_store (λ n. refl)
      (λ n. refl) refl test_decoded (omega arith)

replay-terminates_example :
    (r : Reply (List Event)) × (replay read test_options false none none
        (λ n. none)
        (λ n. short_batch 1)
        test_messages
      ≡ some r)
replay-terminates_example =
    replay-terminates read test_options false none none (λ n. none) (λ n. short_batch 1)
      test_messages

-- A fetch that fails at once is not reported.
replay_fault :
    replay read test_options false none none (λ n. none) (λ n. no_batch) test_messages
    ≡ some (ok [])
unfolding replay Nats.read_rounds Nats.read_batch
replay_fault = refl

test_subject : subject_for_event (event_at 1) ≡ "events.Task_Done"
unfolding subject_for_event clean_subject_token Nats.clean_chars trim_left trim_right
test_subject = refl

abbrev all_types : SubscribeOptions
all_types = record { event_types = []; buffer_size = pos 1 }

abbrev test_moves : List (Bool × SubscriberMove)
test_moves =
    (false, delivered "one")
    ∷ (false, advanced false proceed)
    ∷ (false, advanced false proceed)
    ∷ (false, advanced false proceed)
    ∷ (false, delivered "two")
    ∷ (false, taking)
    ∷ []

follow-feeds_example :
    (rest : List Event) × (((follow read test_moves (new_subscriber 1 (pos 256) all_types)).taken
          ++ (follow read test_moves (new_subscriber 1 (pos 256) all_types)).buffer)
        ++ rest
      ≡ wanted read
          (follow read test_moves (new_subscriber 1 (pos 256) all_types)).event_types
          (messages test_moves))
    × (is_alive (follow read test_moves (new_subscriber 1 (pos 256) all_types)) ≡ true
        → rest
          ≡ held (follow read test_moves (new_subscriber 1 (pos 256) all_types)).phase
            ++ wanted read
                (follow read test_moves (new_subscriber 1 (pos 256) all_types)).event_types
                (follow read test_moves (new_subscriber 1 (pos 256) all_types)).pending)
follow-feeds_example = follow-feeds read 1 (pos 256) all_types test_moves

abbrev waiting : NatsSubscriber
waiting = record {
  id = 1;
  event_types = [];
  capacity = 1;
  registered = true;
  pending = [];
  stopped = false;
  phase = in_next;
  buffer = [];
  open_ = true;
  taken = [];
}

abbrev test_bus : NatsBus
test_bus = record {
  subscribers = waiting ∷ [];
  next_sub_id = 2;
  push_buffer_size = pos 256;
  done = false;
}

abbrev later_moves : List Move
later_moves = moved 1 (advanced true proceed) ∷ moved 1 taking ∷ []

close_waits_example : close_returns (run read (closing ∷ later_moves) test_bus).subscribers ≡ false
close_waits_example = close_waits read 1 later_moves test_bus refl (refl, (refl, tt))

abbrev served : NatsSubscriber
served = record waiting { pending = "one" ∷ [] }

close_ends_example :
    close_returns (sweep read true (sweep read false (sweep read true (served ∷ [])))) ≡ true
close_ends_example = close_ends read true false true (served ∷ []) ((refl, refl), tt)

takes_all : takes [] (event_at 1) ≡ true
unfolding takes
takes_all = refl

unsubscribe_panics_example :
    (follow read
      ((false, delivered "one")
        ∷ (false, advanced true proceed)
        ∷ (false, advanced true proceed)
        ∷ (false, unsubscribing)
        ∷ (false, advanced true proceed)
        ∷ [])
      (new_subscriber 1 (pos 256) all_types)).phase
    ≡ panicked
unsubscribe_panics_example =
    unsubscribe_panics read 1 (pos 256) all_types "one" (event_at 1) true true true refl takes_all

-- ===== src/Bus/Local.antt =====
-- The in-process event bus: internal/core/local_bus.go and the options of bus.go, over the memory
-- store. A channel is the list of what it buffers, oldest first. `Publish` is one step, so a run is one of
-- publishes that do not overlap: the code holds no lock from the store to its send. Where the send
-- blocks on a full channel, the dispatch loop takes an event first. The current trace id, the
-- context's error and `time.Now()` are arguments.
pub mod Delivery
pub mod Publish
pub mod Tests
use openspace_os_core.Base.{
  ℕ, ◌+◌, ◌%◌, ◌^◌, ℤ, pos, pos_part, leb_ℤ, String, Bool, true, false, not, ◌&&◌, ◌||◌, Option,
  none, some, List, [], ◌∷◌, ◌++◌, map, str_eq, if◌then◌else◌, ltb, length, keep_if, ◌==◌,
}
use openspace_os_core.Event.{Event}
use openspace_os_core.Event.Schema.{SchemaRegistry, Invalid, validate}
use openspace_os_core.Store.{
  MemoryEventStore, StoreError, Answer, ok, err, QueryOptions, has_type, is_empty, append, query,
  close,
}

abbrev pub publish_buffer_size : ℕ
publish_buffer_size = 1024

abbrev pub default_subscribe_buffer_size : ℕ
default_subscribe_buffer_size = 256

pub record Subscriber : Type 0 where
  pub id : ℕ
  pub event_types : List String
  pub capacity : ℕ
  pub buffer : List Event

pub record LocalBus : Type 0 where
  pub store : MemoryEventStore
  pub registry : SchemaRegistry
  pub subscribers : List Subscriber
  pub next_sub_id : ℕ
  pub publish_ch : List Event
  pub done : Bool
  pub dropped_count : ℕ

unfoldable pub matches : Subscriber → String → Bool
unfolding has_type
matches s t = if is_empty s.event_types then true else has_type t s.event_types

-- The non-blocking send to one subscriber: the subscriber, and the number of dropped events.
unfoldable pub offer : Event → Subscriber → Subscriber × ℕ
offer e s =
    if not (matches s e.event_type)
    then (s, 0)
    else if ltb (length s.buffer) s.capacity
    then (record s { buffer = s.buffer ++ (e ∷ []) }, 0)
    else (s, 1)

-- The loop of `fanout`.
unfoldable pub offer_all : Event → List Subscriber → List Subscriber × ℕ
offer_all e [] = ([], 0)
offer_all e (s ∷ ss) = let (s', n) = offer e s in let (ss', m) = offer_all e ss in (s' ∷ ss', n + m)

unfoldable pub fanout : Event → LocalBus → LocalBus
fanout e b =
    let (ss, dropped) = offer_all e b.subscribers in
    record b { subscribers = ss; dropped_count = b.dropped_count + dropped }

unfoldable pub fanout_all : List Event → LocalBus → LocalBus
fanout_all [] b = b
fanout_all (e ∷ es) b = fanout_all es (fanout e b)

abbrev dispatch_from : List Event → LocalBus → LocalBus
dispatch_from [] b = b
dispatch_from (e ∷ es) b = fanout e (record b { publish_ch = es })

-- One round of the dispatch loop.
unfoldable pub dispatch : LocalBus → LocalBus
dispatch b = dispatch_from b.publish_ch b

pub data BusError : Type 0 where
  nil_event bus_closed : BusError
  invalid : Invalid → BusError
  not_stored : StoreError → BusError

pub data Published : Type 0 where
  published : LocalBus → Published
  rejected : BusError → Published

abbrev pub push : Event → LocalBus → LocalBus
push e b = record b { publish_ch = b.publish_ch ++ (e ∷ []) }

-- `b.publishCh <- e`.
unfoldable pub send : Event → LocalBus → LocalBus
send e b = if ltb (length b.publish_ch) publish_buffer_size then push e b else push e (dispatch b)

abbrev pub with_trace : String → Event → Event
with_trace trace e = record e { trace_id = if str_eq e.trace_id "" then trace else e.trace_id }

abbrev pub stored : Event → LocalBus → Answer MemoryEventStore → Published
stored e b (ok store) = published (send e (record b { store = store }))
stored e b (err x) = rejected (not_stored x)

abbrev pub validated : Option String → ℕ → Event → LocalBus → Option Invalid → Published
validated ctx now e b (some x) = rejected (invalid x)
validated ctx now e b none = stored e b (append ctx now (some e) b.store)

unfoldable pub publish : Option String → String → ℕ → Option Event → LocalBus → Published
publish ctx trace now none b = rejected nil_event
publish ctx trace now (some e) b =
    let e' = with_trace trace e in
    if b.done then rejected bus_closed else validated ctx now e' b (validate b.registry (some e'))

pub record SubscribeOptions : Type 0 where
  pub event_types : List String
  pub buffer_size : ℤ

-- The subscriber's id, which its unsubscribe function keeps, and the bus.
unfoldable pub subscribe : SubscribeOptions → LocalBus → ℕ × LocalBus
subscribe o b = (
  b.next_sub_id,
  record b {
    subscribers =
        b.subscribers
        ++ (record {
          id = b.next_sub_id;
          event_types = o.event_types;
          capacity =
              if leb_ℤ o.buffer_size (pos 0)
              then default_subscribe_buffer_size
              else pos_part o.buffer_size;
          buffer = [];
        }
            ∷ []);
    next_sub_id = (b.next_sub_id + 1) % 2 ^ 64;
  },
)

unfoldable pub unsubscribe : ℕ → LocalBus → LocalBus
unsubscribe id b = record b { subscribers = keep_if (λ s. not (s.id == id)) b.subscribers }

pub record ReplayOptions : Type 0 where
  pub event_types : List String
  pub source_node_id : String
  pub start_time : Option ℕ
  pub end_time : Option ℕ
  pub limit : ℤ

abbrev pub replay_query : ReplayOptions → QueryOptions
replay_query o = record {
  event_types = o.event_types;
  source_node_id = o.source_node_id;
  start_time = o.start_time;
  end_time = o.end_time;
  limit = o.limit;
  offset = pos 0;
}

-- `Replay`: the events found, and the bus after they have gone to the subscribers.
unfoldable pub replay : Option String → ReplayOptions → LocalBus → Answer (List Event × LocalBus)
replay ctx o b = elim (query ctx (replay_query o) b.store) [
  | err x ↦ err x
  | ok es ↦ ok (es, fanout_all es b)
]

-- `Close`: the dispatch loop empties the channel before the store is closed.
unfoldable pub close_bus : LocalBus → LocalBus
close_bus b =
    if b.done
    then b
    else let drained = fanout_all b.publish_ch (record b { publish_ch = []; done = true }) in
      record drained { store = close drained.store }

-- ===== src/Store.antt =====
-- The event store: internal/core/event_store.go, event_store_memory.go and errors.go. An event is a
-- value here: the store keeps the caller's pointer, so the model is of callers that do not write to
-- an event after `Append`. `ctx.Err()` and the clock are arguments; each call runs under the lock.
pub mod Paging
pub mod Query
pub mod Cleanup
pub mod Sqlite
pub mod Tests
use openspace_os_core.Base.{
  count_if, ℕ, ◌+◌, ◌-◌, ◌*◌, ℤ, pos, pos_part, ltb_ℤ, leb_ℤ, String, Bool, true, false, not, ◌&&◌,
  ◌||◌, Option, none, some, List, [], ◌∷◌, ◌++◌, map, str_eq, if◌then◌else◌, ltb, length, take,
  drop, keep_if, sort_by,
}
use openspace_os_core.Event.{Event}

pub record QueryOptions : Type 0 where
  pub event_types : List String
  pub source_node_id : String
  pub start_time : Option ℕ
  pub end_time : Option ℕ
  pub limit : ℤ
  pub offset : ℤ

-- Durations are counts of nanoseconds. The clock of the configuration is an argument instead.
pub record StoreConfig : Type 0 where
  pub ttl : ℤ
  pub max_events : ℤ
  pub cleanup_interval : ℤ

abbrev pub hour : ℕ
hour = 3_600_000_000_000

unfoldable pub default_store_config : StoreConfig
default_store_config = record {
  ttl = pos (7 * 24 * hour);
  max_events = pos 1_000_000;
  cleanup_interval = pos hour;
}

unfoldable pub apply_defaults : StoreConfig → StoreConfig
apply_defaults c = record {
  ttl = if leb_ℤ c.ttl (pos 0) then pos (7 * 24 * hour) else c.ttl;
  max_events = if leb_ℤ c.max_events (pos 0) then pos 1_000_000 else c.max_events;
  cleanup_interval = if leb_ℤ c.cleanup_interval (pos 0) then pos hour else c.cleanup_interval;
}

pub record MemEntry : Type 0 where
  pub event : Event
  pub created_at : ℕ

pub record MemoryEventStore : Type 0 where
  pub entries : List MemEntry
  pub cfg : StoreConfig
  pub closed : Bool

pub data StoreError : Type 0 where
  nil_event store_closed : StoreError
  context_done : String → StoreError

pub data Answer {ℓ} (A : Type ℓ) : Type ℓ where
  ok : A → Answer A
  err : StoreError → Answer A

unfoldable pub new_memory_event_store : StoreConfig → MemoryEventStore
unfolding apply_defaults
new_memory_event_store cfg = record { entries = []; cfg = apply_defaults cfg; closed = false }

-- The test of `ctx.Err()`, which every call makes first, and the one of `closed` under the lock.
abbrev pub when_open {ℓ} : {A : Type ℓ} → Option String → MemoryEventStore → Answer A → Answer A
when_open (some e) s a = err (context_done e)
when_open none s a = if s.closed then err store_closed else a

unfoldable pub append :
    Option String → ℕ → Option Event → MemoryEventStore → Answer MemoryEventStore
append ctx now none s = err nil_event
append ctx now (some e) s =
    when_open ctx s
      (ok (record s { entries = s.entries ++ (record { event = e; created_at = now } ∷ []) }))

-- The type is among those of the filter.
unfoldable pub has_type : String → List String → Bool
has_type t [] = false
has_type t (u ∷ us) = if str_eq u t then true else has_type t us

abbrev pub is_empty {ℓ} : {A : Type ℓ} → List A → Bool
is_empty [] = true
is_empty (x ∷ xs) = false

abbrev pub before_start : Option ℕ → ℕ → Bool
before_start none t = false
before_start (some u) t = ltb t u

abbrev pub after_end : Option ℕ → ℕ → Bool
after_end none t = false
after_end (some u) t = ltb u t

unfoldable pub match_query : QueryOptions → Event → Bool
unfolding has_type
match_query o e =
    if not (is_empty o.event_types) && not (has_type e.event_type o.event_types)
    then false
    else if not (str_eq o.source_node_id "") && not (str_eq e.source_node_id o.source_node_id)
    then false
    else if before_start o.start_time e.timestamp
    then false
    else if after_end o.end_time e.timestamp
    then false
    else true

-- `opts.Limit` applied to the rest of the result.
abbrev pub cut {ℓ} : {A : Type ℓ} → ℤ → List A → List A
cut limit ys =
    if ltb_ℤ (pos 0) limit && ltb_ℤ limit (pos (length ys)) then take (pos_part limit) ys else ys

-- `opts.Offset` and `opts.Limit` applied to the sorted result. A nil slice is the empty list.
unfoldable pub page {ℓ} : {A : Type ℓ} → ℤ → ℤ → List A → List A
page offset limit xs =
    if ltb_ℤ (pos 0) offset && ltb_ℤ offset (pos (length xs))
    then cut limit (drop (pos_part offset) xs)
    else if leb_ℤ (pos (length xs)) offset
    then []
    else cut limit xs

-- The matching events by timestamp. Copies of the events are the events.
unfoldable pub matching : QueryOptions → MemoryEventStore → List Event
matching o s = sort_by (λ e. e.timestamp) (keep_if (match_query o) (map (λ m. m.event) s.entries))

unfoldable pub query : Option String → QueryOptions → MemoryEventStore → Answer (List Event)
query ctx o s = when_open ctx s (ok (page o.offset o.limit (matching o s)))

-- `entry.createdAt.Before(now.Add(-TTL))`.
abbrev pub is_expired : StoreConfig → ℕ → MemEntry → Bool
is_expired c now m = ltb (m.created_at + pos_part c.ttl) now

abbrev pub fresh : StoreConfig → ℕ → List MemEntry → List MemEntry
fresh c now = keep_if (λ m. not (is_expired c now m))

-- How many are over the limit; the oldest of them go.
abbrev pub excess : StoreConfig → List MemEntry → ℕ
excess c ms = if ltb_ℤ c.max_events (pos (length ms)) then length ms - pos_part c.max_events else 0

-- `Cleanup`: the number of deleted entries, and the store.
unfoldable pub cleanup : Option String → ℕ → MemoryEventStore → Answer (ℕ × MemoryEventStore)
cleanup ctx now s =
    let live = fresh s.cfg now s.entries in
    let deleted = count_if (is_expired s.cfg now) s.entries in
    when_open ctx s
      (ok (deleted + excess s.cfg live, record s { entries = drop (excess s.cfg live) live }))

unfoldable pub close : MemoryEventStore → MemoryEventStore
close s = record s { closed = true; entries = [] }

unfoldable pub len : MemoryEventStore → ℕ
len s = length s.entries

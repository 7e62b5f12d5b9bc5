-- ===== src/Store/Sqlite.antt =====
-- The event store on SQLite: internal/core/event_store_sqlite.go. The database is a parameter of the
-- model as far as its documentation goes: a table is the list of its rows in the order in which they
-- were inserted, `ORDER BY` keeps that order among equal keys, TEXT values compare by `text_lt`, a
-- second row with the same primary key is refused, and any statement may fail instead. The texts of
-- times and payloads are those of Go's `time` and `encoding/json`, parameters as well. The schema
-- statements and the file behind the database are not modelled.
pub mod Rows
pub mod Agreement
pub mod Order
pub mod Trim
pub mod Tests
use openspace_os_core.Base.{
  ℕ, ◌+◌, ◌-◌, ℤ, pos, pos_part, ltb_ℤ, leb_ℤ, String, Bool, true, false, not, ◌&&◌, Option, none,
  some, List, [], ◌∷◌, ◌++◌, map, str_eq, if◌then◌else◌, length, take, drop, keep_if, count_if,
}
use openspace_os_core.Event.{Event, Payload}
use openspace_os_core.Store.{QueryOptions, StoreConfig, apply_defaults, has_type, is_empty}

-- `Format` and `Parse` with RFC3339Nano, `json.Marshal` and `json.Unmarshal` of a payload, and
-- SQLite's comparison of texts.
pub record Texts : Type 0 where
  pub format : ℕ → String
  pub parse : String → Option ℕ
  pub marshal : Payload → Option String
  pub unmarshal : String → Option Payload
  pub text_lt : String → String → Bool

-- A row of the table `events`.
pub record Row : Type 0 where
  pub event_id : String
  pub event_type : String
  pub timestamp : String
  pub source_node_id : String
  pub trace_id : String
  pub payload : String
  pub created_at : String

pub record SqliteEventStore : Type 0 where
  pub rows : List Row
  pub cfg : StoreConfig
  pub closed : Bool

pub data SqliteError : Type 0 where
  nil_event store_closed not_encoded duplicate bad_timestamp bad_payload : SqliteError
  context_done driver : String → SqliteError

pub data Reply {ℓ} (A : Type ℓ) : Type ℓ where
  ok : A → Reply A
  err : SqliteError → Reply A

unfoldable pub new_sqlite_event_store : StoreConfig → SqliteEventStore
unfolding apply_defaults
new_sqlite_event_store cfg = record { rows = []; cfg = apply_defaults cfg; closed = false }

-- The tests of the context and of `closed`, which every call makes first.
abbrev pub when_open {ℓ} : {A : Type ℓ} → Option String → SqliteEventStore → Reply A → Reply A
when_open (some e) s a = err (context_done e)
when_open none s a = if s.closed then err store_closed else a

-- A statement that the driver refuses with an error, or that is done.
abbrev pub statement {ℓ} : {A : Type ℓ} → Option String → Reply A → Reply A
statement (some e) a = err (driver e)
statement none a = a

abbrev pub is_stored : String → List Row → Bool
is_stored id [] = false
is_stored id (r ∷ rs) = if str_eq r.event_id id then true else is_stored id rs

-- What a query asks for: the conditions that `Query` joins by AND, its LIMIT (`none` for -1 and for
-- no LIMIT) and its OFFSET.
pub data Clause : Type 0 where
  type_in : List String → Clause
  source_is since until : String → Clause

pub record Select : Type 0 where
  pub clauses : List Clause
  pub limit : Option ℕ
  pub offset : ℕ

abbrev pub type_clause : List String → List Clause
type_clause [] = []
type_clause (t ∷ ts) = type_in (t ∷ ts) ∷ []

abbrev pub source_clause : String → List Clause
source_clause id = if str_eq id "" then [] else source_is id ∷ []

abbrev pub limited {ℓ} : {A : Type ℓ} → Option ℕ → List A → List A
limited none rs = rs
limited (some n) rs = take n rs

module _ (x : Texts) where
  abbrev pub since_clause : Option ℕ → List Clause
  since_clause none = []
  since_clause (some t) = since (x.format t) ∷ []

  abbrev pub until_clause : Option ℕ → List Clause
  until_clause none = []
  until_clause (some t) = until (x.format t) ∷ []

  -- The text of the query and its arguments.
  unfoldable pub build_select : QueryOptions → Select
  build_select o = record {
    clauses =
        type_clause o.event_types
        ++ (source_clause o.source_node_id
            ++ (since_clause o.start_time ++ until_clause o.end_time));
    limit = if ltb_ℤ (pos 0) o.limit then some (pos_part o.limit) else none;
    offset = if ltb_ℤ (pos 0) o.offset then pos_part o.offset else 0;
  }

  abbrev pub meets : Clause → Row → Bool
  meets (type_in ts) r = has_type r.event_type ts
  meets (source_is id) r = str_eq r.source_node_id id
  meets (since t) r = not (x.text_lt r.timestamp t)
  meets (until t) r = not (x.text_lt t r.timestamp)

  abbrev pub meets_all : List Clause → Row → Bool
  meets_all [] r = true
  meets_all (c ∷ cs) r = meets c r && meets_all cs r

  abbrev pub insert_row : Row → List Row → List Row
  insert_row r [] = r ∷ []
  insert_row r (q ∷ qs) =
      if x.text_lt q.timestamp r.timestamp then q ∷ insert_row r qs else r ∷ q ∷ qs

  -- `ORDER BY timestamp ASC`.
  abbrev pub order_rows : List Row → List Row
  order_rows [] = []
  order_rows (r ∷ rs) = insert_row r (order_rows rs)

  unfoldable pub select : Select → List Row → List Row
  select q rs = limited q.limit (drop q.offset (order_rows (keep_if (meets_all q.clauses) rs)))

  abbrev pub scanned : Row → Option ℕ → Option Payload → Reply Event
  scanned r none p = err bad_timestamp
  scanned r (some t) none = err bad_payload
  scanned r (some t) (some p) = ok (record {
    event_id = r.event_id;
    event_type = r.event_type;
    timestamp = t;
    source_node_id = r.source_node_id;
    trace_id = r.trace_id;
    payload = p;
  })

  unfoldable pub scan_event : Row → Reply Event
  scan_event r = scanned r (x.parse r.timestamp) (x.unmarshal r.payload)

  abbrev pub put_first : Reply Event → Reply (List Event) → Reply (List Event)
  put_first (err e) es = err e
  put_first (ok a) (err e) = err e
  put_first (ok a) (ok es) = ok (a ∷ es)

  -- The loop over the rows: the first that cannot be read ends it.
  unfoldable pub scan_all : List Row → Reply (List Event)
  scan_all [] = ok []
  scan_all (r ∷ rs) = put_first (scan_event r) (scan_all rs)

  unfoldable pub query :
      Option String → Option String → QueryOptions → SqliteEventStore → Reply (List Event)
  query ctx fails o s =
      when_open ctx s (statement fails (scan_all (select (build_select o) s.rows)))

  abbrev pub to_row : Event → String → ℕ → Row
  to_row e payload now = record {
    event_id = e.event_id;
    event_type = e.event_type;
    timestamp = x.format e.timestamp;
    source_node_id = e.source_node_id;
    trace_id = e.trace_id;
    payload = payload;
    created_at = x.format now;
  }

  abbrev pub inserted :
      Option String → ℕ → Event → SqliteEventStore → Option String → Reply SqliteEventStore
  inserted fails now e s none = err not_encoded
  inserted fails now e s (some payload) = statement fails (
      if is_stored e.event_id s.rows
      then err duplicate
      else ok (record s { rows = s.rows ++ (to_row e payload now ∷ []) }))

  unfoldable pub append :
      Option String → Option String → ℕ → Option Event → SqliteEventStore → Reply SqliteEventStore
  append ctx fails now none s = err nil_event
  append ctx fails now (some e) s = when_open ctx s (inserted fails now e s (x.marshal e.payload))

  -- Whether the text of the row's time does not sort before that of the cutoff.
  abbrev pub is_young : StoreConfig → ℕ → Row → Bool
  is_young c now r = not (x.text_lt r.created_at (x.format (now - pos_part c.ttl)))

  -- `DELETE … WHERE event_id IN (SELECT … ORDER BY timestamp ASC LIMIT ?)`.
  abbrev pub delete_oldest : ℕ → List Row → List Row
  delete_oldest n rs =
      keep_if (λ r. not (has_type r.event_id (map (λ q. q.event_id) (take n (order_rows rs))))) rs

  -- What `Cleanup` does once the expired rows are gone: the count, and the rows over the limit.
  unfoldable pub trim :
      Option String → Option String → ℕ → SqliteEventStore → Reply ℕ × SqliteEventStore
  trim (some e) trim_fails deleted s = (err (driver e), s)
  trim none trim_fails deleted s =
      let excess = length s.rows - pos_part s.cfg.max_events in
      if ltb_ℤ s.cfg.max_events (pos (length s.rows))
      then elim trim_fails [
        | some e ↦ (err (driver e), s)
        | none ↦ (ok (deleted + excess), record s { rows = delete_oldest excess s.rows })
      ]
      else (ok deleted, s)

  abbrev pub expire :
      Option String
      → Option String
      → Option String
      → ℕ
      → SqliteEventStore
      → Reply ℕ × SqliteEventStore
  expire (some e) count_fails trim_fails now s = (err (driver e), s)
  expire none count_fails trim_fails now s =
      trim count_fails trim_fails (count_if (λ r. not (is_young s.cfg now r)) s.rows)
        (record s { rows = keep_if (is_young s.cfg now) s.rows })

  -- `Cleanup`, with the error of each of its three statements.
  unfoldable pub cleanup :
      Option String
      → Option String
      → Option String
      → Option String
      → ℕ
      → SqliteEventStore
      → Reply ℕ × SqliteEventStore
  cleanup (some c) fails count_fails trim_fails now s = (err (context_done c), s)
  cleanup none fails count_fails trim_fails now s =
      if s.closed then (err store_closed, s) else expire fails count_fails trim_fails now s

unfoldable pub close : SqliteEventStore → SqliteEventStore
close s = record s { closed = true }

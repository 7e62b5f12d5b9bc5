-- ===== src/Bus/Nats.antt =====
-- The event bus on NATS: internal/core/nats_bus.go, as far as one call goes: the configuration, the
-- subjects, Publish and Replay. The goroutines of the subscriptions and Close stand in Bus/Nats/Consumer.
-- JetStream is a parameter: the stream is the list of its messages, a fetch hands over the next of
-- them or fails, and JSON's two directions are functions into texts. The server's retention, its
-- reconnects and the setting up of stream and connection are not modelled.
pub mod Subjects
pub mod Rounds
pub mod History
pub mod Consumer
pub mod Tests
use Prim.Native.Char.{Char, code}
use Prim.Native.String
use openspace_os_core.Base.{
  ℕ, zero, suc, ◌+◌, ◌*◌, ℤ, pos, pos_part, leb_ℤ, ltb_ℤ, String, Bool, true, false, not, ◌&&◌,
  ◌||◌, Option, none, some, List, [], ◌∷◌, ◌++◌, map, str_eq, if◌then◌else◌, ltb, leb, length, take,
  drop, ◌==◌, min,
}
use openspace_os_core.Event.{Event}
use openspace_os_core.Event.Schema.{SchemaRegistry, Invalid, validate, trim_space}
use openspace_os_core.Store.{has_type, is_empty, before_start, after_end, hour}
use openspace_os_core.Bus.Local.{ReplayOptions, with_trace}

pub record JetStreamConfig : Type 0 where
  pub stream_name : String
  pub max_stream_age : ℤ
  pub push_buffer_size : ℤ
  pub ack_wait : ℤ
  pub max_deliver : ℤ

abbrev pub or_default : ℤ → ℕ → ℤ
or_default z n = if leb_ℤ z (pos 0) then pos n else z

unfoldable pub apply_defaults : JetStreamConfig → JetStreamConfig
apply_defaults c = record {
  stream_name = if str_eq c.stream_name "" then "events" else c.stream_name;
  max_stream_age = or_default c.max_stream_age (7 * 24 * hour);
  push_buffer_size = or_default c.push_buffer_size 256;
  ack_wait = or_default c.ack_wait 10_000_000_000;
  max_deliver = or_default c.max_deliver 10;
}

abbrev pub is_reserved : Char → Bool
is_reserved c = code c == b' ' || (code c == b'.' || (code c == b'>' || code c == b'*'))

-- The loop of `cleanSubjectToken`.
unfoldable pub clean_chars : String → String
clean_chars String.[] = String.[]
clean_chars (String.◌∷◌ c s) = String.◌∷◌ (if is_reserved c then "_" else c) (clean_chars s)

unfoldable pub clean_subject_token : String → String
clean_subject_token s = if str_eq (trim_space s) "" then "unknown" else clean_chars s

unfoldable pub subject_for_event : Event → String
subject_for_event e = String.◌++◌ "events." (clean_subject_token e.event_type)

-- `json.Marshal` and `json.Unmarshal` of an event, and `Format` with RFC3339Nano.
pub record Codec : Type 0 where
  pub marshal : Event → Option String
  pub unmarshal : String → Option Event
  pub format : ℕ → String

pub record Message : Type 0 where
  pub subject : String
  pub timestamp : String
  pub event_type : String
  pub source_node_id : String
  pub payload : String

pub data NatsError : Type 0 where
  nil_event bus_closed not_encoded : NatsError
  context_done not_published no_consumer : String → NatsError
  invalid : Invalid → NatsError

pub data Reply {ℓ} (A : Type ℓ) : Type ℓ where
  ok : A → Reply A
  err : NatsError → Reply A

module _ (x : Codec) where
  abbrev pub encoded : Option String → Event → Option String → Reply Message
  encoded fails e none = err not_encoded
  encoded (some error) e (some text) = err (not_published error)
  encoded none e (some text) = ok (record {
    subject = subject_for_event e;
    timestamp = x.format e.timestamp;
    event_type = e.event_type;
    source_node_id = e.source_node_id;
    payload = text;
  })

  abbrev pub checked : Option String → Event → Option Invalid → Reply Message
  checked fails e (some i) = err (invalid i)
  checked fails e none = encoded fails e (x.marshal e)

  abbrev pub live : SchemaRegistry → Option String → String → Event → Option String → Reply Message
  live registry fails trace e (some c) = err (context_done c)
  live registry fails trace e none =
      checked fails (with_trace trace e) (validate registry (some (with_trace trace e)))

  -- The message that `Publish` adds to the stream. `fails` is the error of `PublishMsg`.
  unfoldable pub publish :
      SchemaRegistry → Bool → Option String → Option String → String → Option Event → Reply Message
  publish registry closed ctx fails trace none = err nil_event
  publish registry closed ctx fails trace (some e) =
      if closed then err bus_closed else live registry fails trace e ctx

-- The loop over the types of the options.
unfoldable pub match_replay : ReplayOptions → Event → Bool
unfolding has_type
match_replay o e =
    if not (is_empty o.event_types) && not (has_type e.event_type o.event_types)
    then false
    else if not (str_eq o.source_node_id "") && not (str_eq e.source_node_id o.source_node_id)
    then false
    else if before_start o.start_time e.timestamp
    then false
    else if after_end o.end_time e.timestamp
    then false
    else true

abbrev pub is_full : ℤ → List Event → Bool
is_full limit out = ltb_ℤ (pos 0) limit && leb_ℤ limit (pos (length out))

-- What can go wrong with a fetch: no batch comes, its messages come and then its error, or only so many
-- of the messages have reached the stream by then.
pub data Fault : Type 0 where
  no_fault no_batch batch_error : Fault
  short_batch : ℕ → Fault

-- How a batch, or the whole replay, ends.
pub data Read : Type 0 where
  more done : List Event → Read

abbrev pub batch_size : ℤ → ℕ
batch_size limit = if ltb_ℤ (pos 0) limit && ltb_ℤ limit (pos 1000) then pos_part limit else 1000

abbrev pub then_read : Read → (List Event → Read) → Read
then_read (done out) f = done out
then_read (more out) f = f out

module _ (unmarshal : String → Option Event) (o : ReplayOptions) where
  abbrev pub wanted : List Event → Event → Bool → Read
  wanted out e false = more out
  wanted out e true =
      if is_full o.limit (out ++ (e ∷ [])) then done (out ++ (e ∷ [])) else more (out ++ (e ∷ []))

  abbrev pub read_one : List Event → Option Event → Read
  read_one out none = more out
  read_one out (some e) = wanted out e (match_replay o e)

  -- The loop over the messages of a batch.
  unfoldable pub read_batch : List Event → List String → Read
  read_batch out [] = more out
  read_batch out (m ∷ ms) = then_read (read_one out (unmarshal m)) (λ out'. read_batch out' ms)

  -- Whether the fetch gets a message, without an error. The size of a batch is positive.
  abbrev pub is_healthy : Fault → List String → Bool
  is_healthy no_fault ms = not (is_empty ms)
  is_healthy no_batch ms = false
  is_healthy batch_error ms = false
  is_healthy (short_batch n) ms = not (n == 0) && not (is_empty ms)

  abbrev pub taken : Fault → ℕ
  taken no_fault = batch_size o.limit
  taken no_batch = 0
  taken batch_error = batch_size o.limit
  taken (short_batch n) = min n (batch_size o.limit)

  abbrev pub fetched : Fault → List String → List String
  fetched f ms = take (taken f) ms

  -- How a round ends: with the context, the limit, a fault or the end of the stream, or by another.
  abbrev pub end_round :
      Option String
      → List Event
      → Read
      → Bool
      → (List Event → Option (List Event × Option String))
      → Option (List Event × Option String)
  end_round (some e) out r again next = some (out, some e)
  end_round none out (done found) again next = some (found, none)
  end_round none out (more found) false next = some (found, none)
  end_round none out (more found) true next = next found

  -- The loop of `Replay` on fuel, which `none` says is used up: the events, and the context's error.
  -- The list has all messages that reach the stream while it runs. `ctx` and `faults` tell of each round whether the context is done and how the fetch goes.
  unfoldable pub read_rounds :
      ℕ
      → (ℕ → Option String)
      → (ℕ → Fault)
      → ℕ
      → List String
      → List Event
      → Option (List Event × Option String)
  read_rounds zero ctx faults round ms out = none
  read_rounds (suc fuel) ctx faults round ms out =
      end_round (ctx round) out (read_batch out (fetched (faults round) ms))
        (is_healthy (faults round) ms)
        (λ found. read_rounds fuel ctx faults (round + 1) (drop (taken (faults round)) ms) found)

  abbrev pub as_reply : Option (List Event × Option String) → Option (Reply (List Event))
  as_reply none = none
  as_reply (some (out, none)) = some (ok out)
  as_reply (some (out, some e)) = some (err (context_done e))

  -- `Replay`: the events that a failed one returns besides its error are left out here. `setup` is
  -- the error of the consumer's creation. More rounds than the stream has messages are never needed.
  unfoldable pub replay :
      Bool
      → Option String
      → Option String
      → (ℕ → Option String)
      → (ℕ → Fault)
      → List String
      → Option (Reply (List Event))
  replay closed (some c) setup ctx faults ms =
      some (err (if closed then bus_closed else context_done c))
  replay closed none (some e) ctx faults ms =
      some (err (if closed then bus_closed else no_consumer e))
  replay closed none none ctx faults ms = elim closed [
    | true ↦ some (err bus_closed)
    | false ↦ as_reply (read_rounds (length ms + 1) ctx faults 0 ms [])
  ]

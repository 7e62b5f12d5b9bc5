-- ===== src/Telemetry/Pipeline.antt =====
-- The telemetry pipeline between the receiver and the bus: internal/pipeline/telemetry/pipeline.go,
-- ingest.go and normalizer.go. `clock` gives the fresh id and the time of the event made of a frame;
-- `show_time` is the JSON text of a time.
pub mod Accounts
pub mod Lines
pub mod Events
use openspace_os_core.Telemetry.Receiver.{handle_lines}
use openspace_os_core.Base.{
  ◌||◌, inr, inl, ◌⊎◌, ℕ, suc, ◌+◌, String, Bool, true, false, Option, none, some, List, [], ◌∷◌,
  ◌++◌, if◌then◌else◌, str_eq, ◌==◌, insert, length,
}
use openspace_os_core.Event.{Event, Payload, Value, str, object, Fields, end, field}
use openspace_os_core.Bus.{MessageBus}
use openspace_os_core.Graph.Service.{to_fields}
use openspace_os_core.Telemetry.{TelemetryFrame, TelemetryParser, Parsed, ok, err, ParseError}
use openspace_os_core.Telemetry.Buffer.{
  Metrics, dropped, BufferQueue, push, pop, close, new_metrics, new_buffer_queue,
}

pub data NormalizeError : Type 0 where
  nil_frame missing_satellite : NormalizeError

abbrev pub quality_of : String → String
quality_of q = if str_eq q "" then "unknown" else q

abbrev pub parameters_of : Payload → Fields
parameters_of none = end
parameters_of (some m) = to_fields m

abbrev pub logical_shard : String → Value
logical_shard id = object (field "satelliteId" (str id) (field "communityId" (str "") end))

-- An id and a time.
abbrev pub Clock : Type 0
Clock = TelemetryFrame → String × ℕ

module _ (show_time : ℕ → String) where
  abbrev pub frame_payload : TelemetryFrame → Payload
  frame_payload f = some (
      ("satelliteId", str f.satellite_id)
      ∷ ("timestamp", str (show_time f.timestamp))
      ∷ ("parameters", object (parameters_of f.parameters))
      ∷ ("quality", str (quality_of f.quality))
      ∷ ("logicalShard", logical_shard f.satellite_id)
      ∷ [])

  abbrev pub frame_event : String × ℕ → TelemetryFrame → Event
  frame_event (id, now) f = record {
    event_id = id;
    event_type = "TelemetryReceived";
    timestamp = now;
    source_node_id = f.satellite_id;
    trace_id = "";
    payload = frame_payload f;
  }

  unfoldable pub normalize : String × ℕ → Option TelemetryFrame → NormalizeError ⊎ Event
  normalize stamp none = inl nil_frame
  normalize stamp (some f) =
      if str_eq f.satellite_id "" then inl missing_satellite else inr (frame_event stamp f)

pub data Turn : Type 0 where
  line : String → Turn
  work : ℕ → Turn

-- The pipeline's own state.
pub record Pipeline (B : Type 0) : Type 0 where
  pub parser : Option TelemetryParser
  pub bus : B
  pub buffer : BufferQueue
  pub stop_closed : Bool
  pub stopped : Bool

module _ {B : Type 0} where
  -- The metrics are one object, which the buffer points to as well.
  abbrev pub with_metrics : Metrics → Pipeline B → Pipeline B
  with_metrics m p = record p { buffer = record p.buffer { metrics = m } }

  abbrev pub drop_one : Pipeline B → Pipeline B
  drop_one p = with_metrics (dropped p.buffer.metrics) p

  abbrev pub published : Pipeline B → Option String × B → Pipeline B × ℕ
  published p (none, bus) = (record p { bus = bus }, 1)
  published p (some e, bus) = (drop_one (record p { bus = bus }), 0)

module _ {B : Type 0} (b : MessageBus B) (show_time : ℕ → String) (clock : Clock) where
  abbrev pub send_event : Pipeline B → NormalizeError ⊎ Event → Pipeline B × ℕ
  send_event p (inl e) = (drop_one p, 0)
  send_event p (inr e) = published p (b.publish p.bus e)

  -- One round of the loops of `process` and `IngestFrames`: the state, and 1 for a frame that was
  -- published.
  unfoldable pub send_frame : TelemetryFrame → Pipeline B → Pipeline B × ℕ
  send_frame f p = send_event p (normalize show_time (clock f) (some f))

  unfoldable pub send_frames : List TelemetryFrame → Pipeline B → Pipeline B × ℕ
  send_frames [] p = (p, 0)
  send_frames (f ∷ fs) p =
      let (q, n) = send_frame f p in let (r, m) = send_frames fs q in (r, n + m)

  -- `IngestFrames`; `none` is its error.
  unfoldable pub ingest_frames : List TelemetryFrame → Pipeline B → Option ℕ × Pipeline B
  ingest_frames [] p = (none, p)
  ingest_frames (f ∷ fs) p =
      let (q, n) = send_frames (f ∷ fs) p in (if n == 0 then none else some n, q)

  abbrev pub timed_parse : ℕ → Pipeline B → Pipeline B
  timed_parse elapsed p = with_metrics (record p.buffer.metrics { parse_latency = elapsed }) p

  abbrev pub process_parsed : Pipeline B → Parsed (List TelemetryFrame) → Pipeline B
  process_parsed p (err e) = drop_one p
  process_parsed p (ok frames) = (send_frames frames p).0

  abbrev pub process_with : Option TelemetryParser → ℕ → String → Pipeline B → Pipeline B
  process_with none elapsed raw p = drop_one p
  process_with (some parser) elapsed raw p =
      process_parsed (timed_parse elapsed p) (parser.parse raw)

  -- `process`; `elapsed` is the time that the parser took.
  unfoldable pub process : ℕ → String → Pipeline B → Pipeline B
  process elapsed raw p = process_with p.parser elapsed raw p

  abbrev pub count_ingress : Pipeline B → Pipeline B
  count_ingress p =
      let m = p.buffer.metrics in with_metrics (record m { ingress_qps = suc m.ingress_qps }) p

  -- `Process`; false is its error.
  unfoldable pub process_raw : ℕ → String → Pipeline B → Bool × Pipeline B
  process_raw elapsed raw p =
      if str_eq raw "" then (false, p) else (true, process elapsed raw (count_ingress p))

  -- `handleRaw`.
  abbrev pub handle_raw : String → Pipeline B → Pipeline B
  handle_raw x p = let q = count_ingress p in record q { buffer = push x q.buffer }

  -- One round of `processLoop`, where the buffer holds this.
  abbrev pub process_first : ℕ → List String → Pipeline B → Pipeline B
  process_first elapsed [] p = p
  process_first elapsed (x ∷ xs) p =
      process elapsed x (record p { buffer = record p.buffer { ch = xs } })

  unfoldable pub process_next : ℕ → Pipeline B → Pipeline B
  process_next elapsed p = process_first elapsed p.buffer.ch p

  -- The goroutines' turns: a connection hands on a line, or `processLoop` takes the next datum.
  unfoldable pub turn : Turn → Pipeline B → Pipeline B
  turn (line l) p = handle_lines handle_raw (l ∷ []) p
  turn (work elapsed) p = process_next elapsed p

  unfoldable pub turns : List Turn → Pipeline B → Pipeline B
  turns [] p = p
  turns (t ∷ ts) p = turns ts (turn t p)

-- `Start` where the receiver does not listen: what it leaves of the pipeline.
unfoldable pub failed_start : {B : Type 0} → Pipeline B → Pipeline B
failed_start p = record p { stop_closed = true; buffer = close p.buffer }

pub data Stopped (B : Type 0) : Type 0 where
  done : Pipeline B → Stopped B
  panics : Stopped B

-- `Stop`; a channel that is closed twice panics.
unfoldable pub stop : {B : Type 0} → Pipeline B → Stopped B
stop p =
    if p.stopped
    then done p
    else if p.stop_closed || p.buffer.closed
    then panics
    else done (record p { stopped = true; stop_closed = true; buffer = close p.buffer })

-- ===== src/Telemetry/Tests.antt =====
-- The telemetry pipeline on a few lines and frames, and the theorems on them.
use openspace_os_core.Base.{
  ℕ, zero, suc, ◌+◌, ◌≡◌, ◌≢◌, refl, arith, String, false, none, some, List, [], ◌∷◌, pos, length,
  inr,
}
use openspace_os_core.Event.Schema.{trim_left, trim_right}
use openspace_os_core.Bus.{MessageBus}
use openspace_os_core.Telemetry.{TelemetryFrame, ok}
use openspace_os_core.Telemetry.Tle.{
  Float64, tle_parser, verify_checksum, checksum, last_byte, split_lines, split_from,
  split_tle_groups,
}
use openspace_os_core.Telemetry.Tle.Checksum.{here, verify_checksum-detects}
use openspace_os_core.Telemetry.Tle.Groups.{nothing, more}
use openspace_os_core.Telemetry.Buffer.{BufferQueue, new_metrics, push, push_all}
use openspace_os_core.Telemetry.Buffer.Latest.{latest, push_all-latest}
use openspace_os_core.Telemetry.Pipeline.{
  Pipeline, Clock, Turn, line, work, turns, ingest_frames, send_frames, send_frame, normalize,
  frame_event,
}
use openspace_os_core.Telemetry.Pipeline.Lines.{turns_of_tle}
use openspace_os_core.Telemetry.Receiver.{Steps}
use openspace_os_core.Telemetry.Receiver.Limit.{at, Steps-beyond_limit}

abbrev iss_line : String
iss_line = "1 25544U 98067A   08264.51782528 -.00002182  00000-0 -11606-4 0  2927"

abbrev bad_iss_line : String
bad_iss_line = "2 25544U 98067A   08264.51782528 -.00002182  00000-0 -11606-4 0  2927"

accepts : verify_checksum iss_line ≡ ok tt
unfolding verify_checksum checksum last_byte
accepts = refl

verify_checksum-detects_example : verify_checksum bad_iss_line ≢ ok tt
verify_checksum-detects_example =
    verify_checksum-detects iss_line bad_iss_line
      (here (omega arith, omega arith) (omega arith, omega arith) (omega arith)) accepts

abbrev two_groups : String
two_groups = "NOAA\n1 a\n\n 2 b \n"

split_test : split_tle_groups two_groups ≡ ("NOAA" ∷ "1 a" ∷ []) ∷ ("2 b" ∷ []) ∷ []
unfolding split_tle_groups split_from split_lines trim_left trim_right
split_test = refl

abbrev small_queue : BufferQueue
small_queue = record { ch = "a" ∷ []; max_size = 2; metrics = new_metrics; closed = false }

push_all_test : (push_all ("b" ∷ "c" ∷ "d" ∷ []) small_queue).ch ≡ "c" ∷ "d" ∷ []
unfolding push_all push
push_all_test = refl

push_all-latest_example :
    ((push_all ("b" ∷ "c" ∷ "d" ∷ []) small_queue).ch ≡ latest 2 ("a" ∷ "b" ∷ "c" ∷ "d" ∷ []))
    × ((push_all ("b" ∷ "c" ∷ "d" ∷ []) small_queue).metrics.drop_count
          + length (push_all ("b" ∷ "c" ∷ "d" ∷ []) small_queue).ch
        ≡ 0 + 1 + 3)
push_all-latest_example =
    push_all-latest ("b" ∷ "c" ∷ "d" ∷ []) small_queue (omega arith) (omega arith)

Steps-beyond_limit_example : Steps (at 1 0 0) (at 1 0 (5 + 0))
Steps-beyond_limit_example = Steps-beyond_limit 0 5

-- A bus that counts its events and refuses from the second on.
abbrev stubborn_bus : MessageBus ℕ
stubborn_bus = record { publish = λ n e. (elim n [ zero ↦ none | suc _ ↦ some "full" ], suc n) }

abbrev unit_floats : Float64 (Unit {0})
unit_floats = record {
  parse_float = λ _. some tt;
  literal = λ _. tt;
  pi = tt;
  add = λ _ _. tt;
  sub = λ _ _. tt;
  mul = λ _ _. tt;
  div = λ _ _. tt;
  cbrt = λ _. tt;
  le = λ _ _. false;
  lt = λ _ _. false;
  truncate = λ _. pos 0;
  to_json = λ _. "0";
}

abbrev show_time : ℕ → String
show_time t = "t"

abbrev test_clock : Clock
test_clock f = ("e", 5)

abbrev frame : String → TelemetryFrame
frame id = record { satellite_id = id; timestamp = 3; parameters = none; quality = "" }

abbrev test_pipeline : Pipeline ℕ
test_pipeline = record {
  parser = some (tle_parser unit_floats show_time);
  bus = 0;
  buffer = record { ch = []; max_size = 2; metrics = new_metrics; closed = false };
  stop_closed = false;
  stopped = false;
}

abbrev test_frames : List TelemetryFrame
test_frames = frame "s1" ∷ frame "" ∷ frame "s2" ∷ []

ingest_test : (ingest_frames stubborn_bus show_time test_clock test_frames test_pipeline).0 ≡ some 1
unfolding ingest_frames send_frames send_frame normalize
ingest_test = refl

normalizes :
    normalize show_time ("e", 5) (some (frame "s1"))
    ≡ inr (frame_event show_time ("e", 5) (frame "s1"))
unfolding normalize
normalizes = refl

abbrev test_turns : List Turn
test_turns = line "1" ∷ work 7 ∷ line "2 " ∷ work 7 ∷ []

turns_of_tle_example : (turns stubborn_bus show_time test_clock test_turns test_pipeline).bus ≡ 0
turns_of_tle_example =
    turns_of_tle stubborn_bus show_time test_clock unit_floats test_turns test_pipeline
      (
        more (omega arith) nothing,
        (tt, (more (omega arith) (more (omega arith) nothing), (tt, tt))),
      )
      refl refl

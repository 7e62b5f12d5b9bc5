-- ===== src/Telemetry/Json.antt =====
-- The parser of JSON lines: internal/pipeline/telemetry/json_parser.go. `unmarshal` is json.Unmarshal
-- into a frame; `now` is the clock, 0 being the zero time.
use openspace_os_core.Base.{
  ℕ, suc, ◌==◌, String, true, false, Option, List, [], ◌∷◌, if◌then◌else◌, str_eq,
}
use openspace_os_core.Event.Schema.{trim_space}
use openspace_os_core.Telemetry.{
  TelemetryFrame, TelemetryParser, empty_input, bad_json, missing_satellite_id, refuse_if, Parsed,
  ok, ◌>>=◌, ◌>>◌,
}
use openspace_os_core.Telemetry.Tle.{lines_of, required, some_frames}

abbrev pub timed : ℕ → TelemetryFrame → TelemetryFrame
timed now frame = record frame { timestamp = if frame.timestamp == 0 then now else frame.timestamp }

module _ (unmarshal : String → Option TelemetryFrame) (now : ℕ) where
  -- The line with this number, which is not blank.
  unfoldable pub parse_line : ℕ → String → Parsed TelemetryFrame
  parse_line i line = do
    frame ← required (bad_json i) (unmarshal line)
    refuse_if (str_eq frame.satellite_id "") (missing_satellite_id i)
    ok (timed now frame)

  -- The loop of `Parse`.
  unfoldable pub parse_lines : ℕ → List String → Parsed (List TelemetryFrame)
  parse_lines i [] = ok []
  parse_lines i (line ∷ lines) = elim (str_eq (trim_space line) "") [
    | true ↦ parse_lines (suc i) lines
    | false ↦ (do
      frame ← parse_line i (trim_space line)
      frames ← parse_lines (suc i) lines
      ok (frame ∷ frames))
  ]

  unfoldable pub parse_json : String → Parsed (List TelemetryFrame)
  parse_json raw = do
    refuse_if (str_eq (trim_space raw) "") empty_input
    frames ← parse_lines 1 (lines_of (trim_space raw))
    some_frames frames

  abbrev pub json_parser : TelemetryParser
  json_parser = record { name = "json"; parse = parse_json }

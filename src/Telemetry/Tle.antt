-- ===== src/Telemetry/Tle.antt =====
-- The parser of two-line elements: internal/pipeline/telemetry/tle_parser.go. The package's float64
-- is a type with its operations (`Float64`). Texts count their UTF-8 bytes, as in Go; a column range
-- takes whole characters, which is Go's for a line of ASCII.
pub mod Checksum
pub mod Groups
use Prim.Native.Char.{Char, code}
use Prim.Native.String.{len, slice, ◌++◌ as ◌++ₛ◌}
use text.Mathlib.Text.{starts_with}
use openspace_os_core.Base.{
  ℕ, zero, suc, ◌+◌, ◌-◌, ◌*◌, ◌/◌, ◌%◌, ℤ, pos, negsuc, pos_part, leb_ℤ, leb, ltb, ◌==◌, String,
  Bool, true, false, not, ◌&&◌, Option, none, some, List, [], ◌∷◌, ◌++◌, length, if◌then◌else◌,
  str_eq,
}
use openspace_os_core.Event.{Value, str, number, object, end, field}
use openspace_os_core.Event.Schema.{trim_space}
use openspace_os_core.Telemetry.{
  TelemetryFrame, TelemetryParser, ParseError, empty_input, no_frames, no_first_line,
  no_second_line, bad_second_prefix, bad_first_char, bad_second_char, bad_year, bad_day,
  day_too_small, bad_mean_motion, too_few_lines, bad_length, bad_checksum, bad_field,
  different_norad_ids, in_line, in_group, refuse_if, Parsed, ok, err, ◌>>=◌, ◌>>◌, wrap,
}

abbrev pub tle_line_length : ℕ
tle_line_length = 69

-- float64: `strconv.ParseFloat`, a literal, the operations, `time.Duration(x)`, and the text of
-- encoding/json.
pub record Float64 (F : Type 0) : Type 0 where
  pub parse_float : String → Option F
  pub literal : String → F
  pub pi : F
  pub add : F → F → F
  pub sub : F → F → F
  pub mul : F → F → F
  pub div : F → F → F
  pub cbrt : F → F
  pub le : F → F → Bool
  pub lt : F → F → Bool
  pub truncate : F → ℤ
  pub to_json : F → String

-- `strings.Split(text, "\n")`: the first line and the others.
unfoldable pub split_lines : String → String × List String
split_lines String.[] = (String.[], [])
split_lines (String.◌∷◌ c s) =
    let (line, lines) = split_lines s in
    if code c == b'\n' then (String.[], line ∷ lines) else (String.◌∷◌ c line, lines)

abbrev pub lines_of : String → List String
lines_of s = let (line, lines) = split_lines s in line ∷ lines

-- `if len(current) > 0 { groups = append(groups, current) }`
abbrev pub closed : List String → List (List String)
closed [] = []
closed (l ∷ ls) = (l ∷ ls) ∷ []

-- The loop of `splitTLEGroups`.
unfoldable pub split_from : List String → List String → List (List String)
split_from current [] = closed current
split_from current (line ∷ lines) = elim (str_eq (trim_space line) "") [
  | true ↦ closed current ++ split_from [] lines
  | false ↦ split_from (current ++ (trim_space line ∷ [])) lines
]

unfoldable pub split_tle_groups : String → List (List String)
unfolding split_from
split_tle_groups text = split_from [] (lines_of text)

-- The first line that starts with "1 ", and the lines after it.
unfoldable pub find_first_line : List String → Option (String × List String)
find_first_line [] = none
find_first_line (l ∷ ls) = if starts_with l "1 " then some (l, ls) else find_first_line ls

abbrev pub second_line : Option (String × List String) → Parsed (String × String)
second_line none = err no_first_line
second_line (some (line1, [])) = err no_second_line
second_line (some (line1, line2 ∷ rest)) =
    refuse_if (not (starts_with line2 "2 ")) bad_second_prefix >> ok (line1, line2)

unfoldable pub extract_tle_lines : List String → Parsed (String × String)
extract_tle_lines group = do
  refuse_if (ltb (length group) 2) (too_few_lines (length group))
  second_line (find_first_line group)

-- `line[0]` and `line[1]` of a line of 69 bytes.
abbrev pub starts_as : ℕ → String → Parsed (Unit {0})
starts_as prefix (String.◌∷◌ c (String.◌∷◌ d s)) = do
  refuse_if (not (code c == prefix)) bad_first_char
  refuse_if (not (code d == b' ')) bad_second_char
starts_as prefix _ = err bad_first_char

unfoldable pub validate_tle_line : String → ℕ → Parsed (Unit {0})
validate_tle_line line prefix = do
  refuse_if (not (len line == tle_line_length)) (bad_length (len line))
  starts_as prefix line

abbrev pub weight : Char → ℕ
weight c =
    if leb b'0' (code c) && leb (code c) b'9'
    then code c - b'0'
    else if code c == b'-'
    then 1
    else 0

-- The sum over all bytes but the last.
unfoldable pub checksum : String → ℕ
checksum String.[] = 0
checksum (String.◌∷◌ c String.[]) = 0
checksum (String.◌∷◌ c (String.◌∷◌ d s)) = weight c + checksum (String.◌∷◌ d s)

-- The last byte; a character beyond ASCII ends with a byte of the form 10xxxxxx.
unfoldable pub last_byte : String → ℕ
last_byte String.[] = 0
last_byte (String.◌∷◌ c String.[]) = if ltb (code c) 128 then code c else 128 + code c % 64
last_byte (String.◌∷◌ c (String.◌∷◌ d s)) = last_byte (String.◌∷◌ d s)

-- The subtraction of bytes wraps around.
abbrev pub check_digit : String → ℕ
check_digit line = (last_byte line + 256 - b'0') % 256

unfoldable pub verify_checksum : String → Parsed (Unit {0})
verify_checksum line = do
  refuse_if (not (len line == tle_line_length)) (bad_length (len line))
  refuse_if (not (check_digit line == checksum line % 10))
      (bad_checksum (checksum line % 10) (check_digit line))

-- `strconv.Atoi` of at most two characters.
abbrev pub digit : Char → Option ℕ
digit c = if leb b'0' (code c) && leb (code c) b'9' then some (code c - b'0') else none

abbrev pub two_digits : Option ℕ → Option ℕ → Option ℕ
two_digits (some a) (some b) = some (10 * a + b)
two_digits _ _ = none

abbrev pub signed : Char → Option ℕ → Option ℤ
signed c (some d) =
    if code c == b'+'
    then some (pos d)
    else if code c == b'-'
    then some (elim d [ zero ↦ pos 0 | suc n ↦ negsuc n ])
    else none
signed c none = none

abbrev pub unsigned : Option ℕ → Option ℤ
unsigned none = none
unsigned (some n) = some (pos n)

abbrev pub first_of {ℓ} : {A : Type ℓ} → Option A → Option A → Option A
first_of none b = b
first_of (some a) b = some a

unfoldable pub atoi : String → Option ℤ
atoi (String.◌∷◌ c String.[]) = unsigned (digit c)
atoi (String.◌∷◌ c (String.◌∷◌ d String.[])) =
    first_of (unsigned (two_digits (digit c) (digit d))) (signed c (digit d))
atoi _ = none

abbrev pub full_year : ℤ → ℕ
full_year (pos n) = if leb 57 n then 1900 + n else 2000 + n
full_year (negsuc n) = 2000 - suc n

-- Nanoseconds from the zero time (1 January of the year 1) to 1 January of a year.
abbrev pub start_of_year : ℕ → ℕ
start_of_year y =
    let past = y - 1 in (past * 365 + past / 4 - past / 100 + past / 400) * (24 * 3600 * 1000000000)

abbrev pub shifted : ℕ → ℤ → ℕ
shifted t (pos d) = t + d
shifted t (negsuc d) = t - suc d

abbrev pub required {ℓ} : {A : Type ℓ} → ParseError → Option A → Parsed A
required e none = err e
required e (some a) = ok a

abbrev pub some_frames : List TelemetryFrame → Parsed (List TelemetryFrame)
some_frames [] = err no_frames
some_frames (x ∷ xs) = ok (x ∷ xs)

pub record OrbitElements (F : Type 0) : Type 0 where
  pub norad_id : String
  pub inclination : F
  pub raan : F
  pub eccentricity : F
  pub arg_perigee : F
  pub mean_anomaly : F
  pub mean_motion : F
  pub period : F
  pub perigee_altitude : F
  pub apogee_altitude : F
  pub semi_major_axis : F
  pub epoch : ℕ

module _ {F : Type 0} (f : Float64 F) where
  -- A trimmed column range as a number.
  abbrev pub column : String → String → ℕ → ℕ → Parsed F
  column what line from to =
      required (bad_field what) (f.parse_float (trim_space (slice line from to)))

  unfoldable pub parse_epoch : String → String → Parsed ℕ
  parse_epoch year day = do
    year2 ← required bad_year (atoi (trim_space year))
    day_of_year ← required bad_day (f.parse_float (trim_space day))
    refuse_if (f.lt day_of_year (f.literal "1")) day_too_small
    let offset = f.sub day_of_year (f.literal "1")
    ok (
        shifted (start_of_year (full_year year2))
          (f.truncate (f.mul (f.mul offset (f.literal "24")) (f.literal "3600000000000"))))

  abbrev pub compute_semi_major_axis : F → F
  compute_semi_major_axis period =
      let seconds = f.mul period (f.literal "60.0") in
      let n = f.div (f.mul (f.literal "2.0") f.pi) seconds in
      f.cbrt (f.div (f.literal "398600.4418") (f.mul n n))

  abbrev pub orbit_of : String → ℕ → F → F → F → F → F → F → OrbitElements F
  orbit_of id epoch inclination raan eccentricity arg_perigee mean_anomaly mean_motion =
      let period = f.div (f.literal "1440.0") mean_motion in
      let axis = compute_semi_major_axis period in
      record {
        norad_id = id;
        inclination = inclination;
        raan = raan;
        eccentricity = eccentricity;
        arg_perigee = arg_perigee;
        mean_anomaly = mean_anomaly;
        mean_motion = mean_motion;
        period = period;
        perigee_altitude =
            f.sub (f.mul axis (f.sub (f.literal "1") eccentricity)) (f.literal "6371.0");
        apogee_altitude =
            f.sub (f.mul axis (f.add (f.literal "1") eccentricity)) (f.literal "6371.0");
        semi_major_axis = axis;
        epoch = epoch;
      }

  -- The columns of both lines, once the lines are known to be well formed.
  abbrev pub parse_columns : String → String → String → Parsed (OrbitElements F)
  parse_columns id line1 line2 = do
    epoch ← parse_epoch (slice line1 18 20) (slice line1 20 32)
    inclination ← column "inclination" line2 8 16
    raan ← column "raan" line2 17 25
    eccentricity ←
        required (bad_field "eccentricity")
          (f.parse_float ("0." ++ₛ trim_space (slice line2 26 33)))
    arg_perigee ← column "argPerigee" line2 34 42
    mean_anomaly ← column "meanAnomaly" line2 43 51
    mean_motion ← column "meanMotion" line2 52 63
    refuse_if (f.le mean_motion (f.literal "0")) bad_mean_motion
    ok (orbit_of id epoch inclination raan eccentricity arg_perigee mean_anomaly mean_motion)

  -- The JSON object of the struct; `show_time` is the text of a time.
  abbrev pub orbit_value : (ℕ → String) → OrbitElements F → Value
  orbit_value show_time o =
      let num = λ (x : F). number (f.to_json x) in
      object (
        field "noradId" (str o.norad_id) (
          field "inclination" (num o.inclination) (
            field "raan" (num o.raan) (
              field "eccentricity" (num o.eccentricity) (
                field "argPerigee" (num o.arg_perigee) (
                  field "meanAnomaly" (num o.mean_anomaly) (
                    field "meanMotion" (num o.mean_motion) (
                      field "period" (num o.period) (
                        field "perigeeAltitude" (num o.perigee_altitude) (
                          field "apogeeAltitude" (num o.apogee_altitude) (
                            field "semiMajorAxis" (num o.semi_major_axis)
                              (field "epoch" (str (show_time o.epoch)) end))))))))))))

  abbrev pub orbit_frame : (ℕ → String) → OrbitElements F → TelemetryFrame
  orbit_frame show_time o = record {
    satellite_id = o.norad_id;
    timestamp = o.epoch;
    quality = "good";
    parameters = some (("orbit", orbit_value show_time o) ∷ ("noradId", str o.norad_id) ∷ []);
  }

  module _ (show_time : ℕ → String) where
    unfoldable pub parse_tle_pair : String → String → Parsed TelemetryFrame
    parse_tle_pair line1 line2 = do
      wrap (in_line 1) (validate_tle_line line1 b'1')
      wrap (in_line 2) (validate_tle_line line2 b'2')
      wrap (in_line 1) (verify_checksum line1)
      wrap (in_line 2) (verify_checksum line2)
      let id1 = trim_space (slice line1 2 7)
      let id2 = trim_space (slice line2 2 7)
      refuse_if (not (str_eq id1 id2)) (different_norad_ids id1 id2)
      o ← parse_columns id1 line1 line2
      ok (orbit_frame show_time o)

    abbrev pub parse_group : List String → Parsed TelemetryFrame
    parse_group group = do (line1, line2) ← extract_tle_lines group; parse_tle_pair line1 line2

    -- The loop of `Parse`, from the group with this number on.
    unfoldable pub parse_groups : ℕ → List (List String) → Parsed (List TelemetryFrame)
    parse_groups i [] = ok []
    parse_groups i (g ∷ gs) = do
      frame ← wrap (in_group i) (parse_group g)
      frames ← parse_groups (suc i) gs
      ok (frame ∷ frames)

    unfoldable pub parse_tle : String → Parsed (List TelemetryFrame)
    parse_tle raw =
        let text = trim_space raw in
        if str_eq text ""
        then err empty_input
        else parse_groups 1 (split_tle_groups text) >>= some_frames

    abbrev pub tle_parser : TelemetryParser
    tle_parser = record { name = "tle"; parse = parse_tle }

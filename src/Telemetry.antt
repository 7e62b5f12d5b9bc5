-- ===== src/Telemetry.antt =====
-- The telemetry pipeline: internal/pipeline/telemetry. A parser plugin and its frames are those of
-- internal/plugin/extensions.go; raw data and lines are texts.
pub mod Tle
pub mod Json
pub mod Buffer
pub mod Receiver
pub mod Pipeline
pub mod Tests
use openspace_os_core.Base.{ℕ, String, Bool, true, false, List, [], ◌∷◌}
use openspace_os_core.Event.{Payload}

pub record TelemetryFrame : Type 0 where
  pub satellite_id : String
  pub timestamp : ℕ
  pub parameters : Payload
  pub quality : String

pub data ParseError : Type 0 where
  empty_input no_frames no_first_line no_second_line bad_second_prefix : ParseError
  bad_first_char bad_second_char bad_year bad_day day_too_small bad_mean_motion : ParseError
  too_few_lines bad_length : ℕ → ParseError
  bad_checksum : ℕ → ℕ → ParseError
  bad_field : String → ParseError
  different_norad_ids : String → String → ParseError
  in_line in_group : ℕ → ParseError → ParseError
  bad_json missing_satellite_id : ℕ → ParseError

pub data Parsed {ℓ} (A : Type ℓ) : Type ℓ where
  ok : A → Parsed A
  err : ParseError → Parsed A

infixl 5 ◌>>=◌ ◌>>◌
abbrev pub ◌>>=◌ {ℓ κ} : {A : Type ℓ} {B : Type κ} → Parsed A → (A → Parsed B) → Parsed B
ok a >>= f = f a
err e >>= f = err e

abbrev pub ◌>>◌ {ℓ} : {B : Type ℓ} → Parsed (Unit {0}) → Parsed B → Parsed B
m >> k = m >>= λ _. k

-- `if c { return err }`
abbrev pub refuse_if : Bool → ParseError → Parsed (Unit {0})
refuse_if true e = err e
refuse_if false e = ok tt

-- The error of a part, wrapped.
abbrev pub wrap {ℓ} : {A : Type ℓ} → (ParseError → ParseError) → Parsed A → Parsed A
wrap f (ok a) = ok a
wrap f (err e) = err (f e)

pub record TelemetryParser : Type 0 where
  pub name : String
  pub parse : String → Parsed (List TelemetryFrame)

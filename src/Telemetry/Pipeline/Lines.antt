-- ===== src/Telemetry/Pipeline/Lines.antt =====
-- Two-line elements over TCP (internal/pipeline/telemetry/receiver.go, pipeline.go, tle_parser.go).
use openspace_os_core.Base.{
  str_eq, ℕ, String, some, List, [], ◌∷◌, ◌≡◌, ◌≢◌, refl, sym, subst, All, All-append, if_cases,
}
use openspace_os_core.Bus.{MessageBus}
use openspace_os_core.Telemetry.{TelemetryFrame, Parsed, ok, err}
use openspace_os_core.Telemetry.Tle.{Float64, tle_parser}
use openspace_os_core.Telemetry.Tle.Groups.{IsOneLine, parse_tle_one_line}
use openspace_os_core.Telemetry.Buffer.{BufferQueue, push, drop_oldest, without_oldest, retry}
use openspace_os_core.Telemetry.Receiver.{handle_lines}
use openspace_os_core.Telemetry.Pipeline.{
  count_ingress, process_first, process_with, Pipeline, Clock, Turn, line, work, turn, turns,
  process, process_parsed, process_next, timed_parse,
}

retry-All :
    (P : String → Type 0) (x : String) (q : BufferQueue) → P x → All P q.ch → All P (retry x q).ch
retry-All P x q px h =
    if_cases (λ (r : BufferQueue). All P r.ch) _ (λ _. All-append P q.ch (x ∷ []) h (px, tt))
      (λ _. h)

without_oldest-All :
    (P : String → Type 0) (ch : List String) (q : BufferQueue)
    → All P ch
    → All P q.ch
    → All P (without_oldest ch q).ch
without_oldest-All P [] q h k = k
without_oldest-All P (y ∷ ys) q (_, h) k = h

push-All :
    (P : String → Type 0) (x : String) (q : BufferQueue) → P x → All P q.ch → All P (push x q).ch
unfolding push
push-All P x q px h =
    if_cases (λ (r : BufferQueue). All P r.ch) _ (λ _. All-append P q.ch (x ∷ []) h (px, tt))
      (λ _. retry-All P x (drop_oldest q) px (without_oldest-All P q.ch q h h))

-- A turn in which the line, if there is one, is a line.
abbrev pub IsLineTurn : Turn → Type 0
IsLineTurn (line l) = IsOneLine l
IsLineTurn (work elapsed) = Unit {0}

module _ {B F : Type 0} (b : MessageBus B) (show_time : ℕ → String) (clock : Clock)
    (f : Float64 F) where
  -- The parser is the one for TLE and every datum in the buffer is a line.
  record Quiet (bus : B) (p : Pipeline B) : Type 0 where
    parser : p.parser ≡ some (tle_parser f show_time)
    lines : All IsOneLine p.buffer.ch
    unchanged : p.bus ≡ bus

  process_parsed-Quiet :
      (bus : B) (p : Pipeline B) (r : Parsed (List TelemetryFrame))
      → ((frames : List TelemetryFrame) → r ≢ ok frames)
      → Quiet bus p
      → Quiet bus (process_parsed b show_time clock p r)
  process_parsed-Quiet bus p (ok frames) refused q = absurd (refused frames refl)
  process_parsed-Quiet bus p (err e) refused q = record {
    parser = q.parser;
    lines = q.lines;
    unchanged = q.unchanged;
  }

  process-Quiet :
      (bus : B) (elapsed : ℕ) (x : String) (p : Pipeline B)
      → IsOneLine x
      → Quiet bus p
      → Quiet bus (process b show_time clock elapsed x p)
  unfolding process
  process-Quiet bus elapsed x p h q =
      subst (λ o. Quiet bus (process_with b show_time clock o elapsed x p)) (sym q.parser)
        (process_parsed-Quiet bus (timed_parse b show_time clock elapsed p) _
          (λ frames. parse_tle_one_line f show_time x frames h)
          (record { parser = q.parser; lines = q.lines; unchanged = q.unchanged }))

  process_first-Quiet :
      (bus : B) (elapsed : ℕ) (ch : List String) (p : Pipeline B)
      → All IsOneLine ch
      → Quiet bus p
      → Quiet bus (process_first b show_time clock elapsed ch p)
  process_first-Quiet bus elapsed [] p h q = q
  process_first-Quiet bus elapsed (x ∷ xs) p (one, h) q =
      process-Quiet bus elapsed x (record p { buffer = record p.buffer { ch = xs } }) one
        (record { parser = q.parser; lines = h; unchanged = q.unchanged })

  turn-Quiet :
      (bus : B) (t : Turn) (p : Pipeline B)
      → IsLineTurn t
      → Quiet bus p
      → Quiet bus (turn b show_time clock t p)
  unfolding turn handle_lines process_next
  turn-Quiet bus (line l) p one q =
      if_cases (Quiet bus) (str_eq l "") (λ _. q)
        (λ _. record {
          parser = q.parser;
          lines = push-All IsOneLine l (count_ingress b show_time clock p).buffer one q.lines;
          unchanged = q.unchanged;
        })
  turn-Quiet bus (work e) p _ q = process_first-Quiet bus e p.buffer.ch p q.lines q

  turns-Quiet :
      (bus : B) (ts : List Turn) (p : Pipeline B)
      → All IsLineTurn ts
      → Quiet bus p
      → Quiet bus (turns b show_time clock ts p)
  unfolding turns
  turns-Quiet bus [] p h q = q
  turns-Quiet bus (t ∷ ts) p (one, h) q =
      turns-Quiet bus ts (turn b show_time clock t p) h (turn-Quiet bus t p one q)

  -- With the parser for two-line elements and an empty buffer, nothing that comes over TCP is ever
  -- published, whatever the lines and however the connections and the worker take turns.
  pub turns_of_tle :
      (ts : List Turn) (p : Pipeline B)
      → All IsLineTurn ts
      → p.parser ≡ some (tle_parser f show_time)
      → p.buffer.ch ≡ []
      → (turns b show_time clock ts p).bus ≡ p.bus
  turns_of_tle ts p h tle empty =
      (turns-Quiet p.bus ts p h (record {
        parser = tle;
        lines = subst (All IsOneLine) (sym empty) tt;
        unchanged = refl;
      })).unchanged

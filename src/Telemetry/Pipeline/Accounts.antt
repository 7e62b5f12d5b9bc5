-- ===== src/Telemetry/Pipeline/Accounts.antt =====
-- Every frame is published or counted as dropped (internal/pipeline/telemetry/ingest.go).
use openspace_os_core.Base.{
  ℕ, suc, zero, ◌+◌, ◌<◌, String, Option, none, some, List, [], ◌∷◌, ◌≡◌, refl, arith, length, inl,
  inr, ◌⊎◌, if◌then◌else◌, ◌==◌,
}
use openspace_os_core.Event.{Event}
use openspace_os_core.Bus.{MessageBus}
use openspace_os_core.Telemetry.{TelemetryFrame}
use openspace_os_core.Telemetry.Pipeline.{
  Pipeline, NormalizeError, Clock, normalize, published, send_event, send_frame, send_frames,
  ingest_frames,
}

module _ {B : Type 0} where
  -- `k` frames: `n` of them published, the others counted as dropped.
  abbrev pub Accounts : ℕ → Pipeline B → Pipeline B × ℕ → Type 0
  Accounts k p (q, n) = n + q.buffer.metrics.drop_count ≡ k + p.buffer.metrics.drop_count

  abbrev pub IngestsAll : List TelemetryFrame → Pipeline B → Option ℕ × Pipeline B → Type 0
  IngestsAll fs p (none, q) = q.buffer.metrics.drop_count ≡ length fs + p.buffer.metrics.drop_count
  IngestsAll fs p (some n, q) =
      (0 < n) × (n + q.buffer.metrics.drop_count ≡ length fs + p.buffer.metrics.drop_count)

  published-Accounts : (p : Pipeline B) (r : Option String × B) → Accounts 1 p (published p r)
  published-Accounts p (none, bus) = refl
  published-Accounts p (some e, bus) = ground arith

module _ {B : Type 0} (b : MessageBus B) (show_time : ℕ → String) (clock : Clock) where
  send_event-Accounts :
      (p : Pipeline B) (r : NormalizeError ⊎ Event)
      → Accounts 1 p (send_event b show_time clock p r)
  send_event-Accounts p (inl e) = ground arith
  send_event-Accounts p (inr e) = published-Accounts p _

  pub send_frames-Accounts :
      (fs : List TelemetryFrame) (p : Pipeline B)
      → Accounts (length fs) p (send_frames b show_time clock fs p)
  unfolding send_frames send_frame
  send_frames-Accounts [] p = refl
  send_frames-Accounts (f ∷ fs) p =
      let one = send_event-Accounts p (normalize show_time (clock f) (some f)) in
      let rest = send_frames-Accounts fs (send_frame b show_time clock f p).0 in
      ground (arith, one, rest)

  -- A batch fails only when no frame of it was published, and then each is counted as dropped; a
  -- batch that succeeds tells how many were published, at least one, and counts the others.
  ingest_frames_lem :
      (fs : List TelemetryFrame) (p : Pipeline B)
      → IngestsAll fs p (ingest_frames b show_time clock fs p)
  unfolding ingest_frames
  ingest_frames_lem [] p = ground arith
  ingest_frames_lem (f ∷ fs) p =
      judged (send_frames b show_time clock (f ∷ fs) p) (send_frames-Accounts (f ∷ fs) p)
    where
      judged :
          (r : Pipeline B × ℕ)
          → Accounts (length (f ∷ fs)) p r
          → IngestsAll (f ∷ fs) p (if r.1 == 0 then none else some r.1, r.0)
      judged (q, zero) h = ground (arith, h)
      judged (q, suc n) h = ground (arith, h)

-- ===== src/Command/Metrics.antt =====
-- internal/pipeline/command/metrics.go. The counters are int64 and count calls; they are modelled
-- without a wrap-around.
use openspace_os_core.Base.{ℕ, ◌+◌, ◌*◌, ◌/◌, Bool, true, false, if◌then◌else◌, ltb}

pub record Metrics : Type 0 where
  pub total_sent : ℕ
  pub total_acked : ℕ
  pub total_failed : ℕ
  pub total_timeout : ℕ
  pub send_latency : ℕ
  pub success_rate : ℕ

abbrev pub zero_metrics : Metrics
zero_metrics = record {
  total_sent = 0;
  total_acked = 0;
  total_failed = 0;
  total_timeout = 0;
  send_latency = 0;
  success_rate = 0;
}

-- The rate of `acked` in `sent`, in hundredths of a percent.
abbrev pub rate : ℕ → ℕ → ℕ
rate acked sent = acked * 10000 / sent

unfoldable pub record_ack : Bool → Metrics → Metrics
record_ack false m = m
record_ack true m = record m {
  total_acked = m.total_acked + 1;
  success_rate =
      if ltb 0 m.total_sent then rate (m.total_acked + 1) m.total_sent else m.success_rate;
}

unfoldable pub record_latency : ℕ → Metrics → Metrics
record_latency us m = record m { send_latency = us }

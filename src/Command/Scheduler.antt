-- ===== src/Command/Scheduler.antt =====
-- internal/pipeline/command/scheduler.go: the configuration, and `sendItem` cut at its waits. A
-- sender runs `start_send`, waits for the adapter or the timeout, runs `finish_send` on the outcome,
-- and if that asks for a retry waits again and runs `after_backoff`. Between two waits its writes
-- are one step. The adapter's answer, `time.Now()` and `uuid.NewString()` are arguments.
pub mod Backoff
pub mod Outcomes
pub mod Events
pub mod Tests
use openspace_os_core.Base.{
  ℕ, suc, ◌+◌, ◌-◌, ◌*◌, ◌%◌, ◌^◌, ℤ, pos, negsuc, pos_part, leb_ℤ, ltb_ℤ, String, Bool, true,
  false, Option, none, some, if◌then◌else◌, ltb,
}
use openspace_os_core.Event.{
  Event, event_command_sent, event_command_acked, set_payload_sent, set_payload_acked,
}
use openspace_os_core.Bus.{MessageBus}
use openspace_os_core.Command.Item.{Command, CommandItem, Ack, Status, queued, acked, failed}
use openspace_os_core.Command.Queue.{PriorityQueue, modify, update}
use openspace_os_core.Command.Metrics.{Metrics, record_ack, record_latency}

-- Durations are counts of nanoseconds.
pub record SchedulerConfig : Type 0 where
  pub max_concurrent : ℤ
  pub timeout : ℤ
  pub max_retries : ℤ
  pub retry_backoff : ℤ

abbrev second : ℕ
second = 1_000_000_000

unfoldable pub with_defaults : SchedulerConfig → SchedulerConfig
with_defaults c = record {
  max_concurrent = if leb_ℤ c.max_concurrent (pos 0) then pos 10 else c.max_concurrent;
  timeout = if leb_ℤ c.timeout (pos 0) then pos (30 * second) else c.timeout;
  max_retries = if leb_ℤ c.max_retries (pos 0) then pos 3 else c.max_retries;
  retry_backoff = if leb_ℤ c.retry_backoff (pos 0) then pos (2 * second) else c.retry_backoff;
}

-- The int64 with the given bits.
abbrev pub int64 : ℕ → ℤ
int64 w = if ltb w (2 ^ 63) then pos w else negsuc (2 ^ 64 - w - 1)

-- `RetryBackoff * time.Duration(1<<uint(n-1))`, in int64, for a positive base.
unfoldable pub backoff : ℤ → ℕ → ℤ
backoff base n = int64 ((pos_part base * (2 ^ (n - 1) % 2 ^ 64)) % 2 ^ 64)

-- What the senders share: the queue, the metrics and the bus.
pub record Shared (B : Type 0) : Type 0 where
  pub queue : PriorityQueue
  pub metrics : Metrics
  pub bus : B

-- The end of the wait in `sendItem`: no adapter is set, the timeout passes, or the adapter returns,
-- with the time it took in microseconds.
pub data Outcome : Type 0 where
  no_adapter timed_out : Outcome
  send_error : String → ℕ → Outcome
  answered : Ack → ℕ → Outcome

-- The end of the wait in `retryOrFail`.
pub data Wake : Type 0 where
  elapsed stopping : Wake

unfoldable pub command_sent : String → ℕ → Command → Event
command_sent event_id now cmd = record {
  event_id = event_id;
  event_type = event_command_sent;
  timestamp = now;
  source_node_id = cmd.satellite_id;
  trace_id = "";
  payload = set_payload_sent (record {
    command_id = cmd.command_id;
    satellite_id = cmd.satellite_id;
    command_type = cmd.command_type;
  });
}

unfoldable pub command_acked : String → ℕ → Command → Ack → Event
command_acked event_id now cmd ack = record {
  event_id = event_id;
  event_type = event_command_acked;
  timestamp = now;
  source_node_id = cmd.satellite_id;
  trace_id = "";
  payload =
      set_payload_acked
        (record { command_id = cmd.command_id; success = ack.success; message = ack.message });
}

abbrev pub count_failed : Metrics → Metrics
count_failed m = record m { total_failed = m.total_failed + 1 }

-- The writes to an item.
abbrev pub mark_retry : String → CommandItem → CommandItem
mark_retry msg i = record i { retry_count = i.retry_count + 1; error = msg }

abbrev pub mark_failed : String → CommandItem → CommandItem
mark_failed msg i = record i { status = failed; error = msg }

abbrev pub mark_stopped : CommandItem → CommandItem
mark_stopped i = record i { status = failed }

abbrev pub mark_requeued : CommandItem → CommandItem
mark_requeued i = record i { status = queued; sent_at = none }

abbrev pub mark_acked : ℕ → Ack → CommandItem → CommandItem
mark_acked now a i = record i { ack = some a; acked_at = some now; status = acked }

module _ {B : Type 0} where
  -- A write through the sender's pointer, and the `Update` that follows it.
  abbrev pub write_item : ℕ → (CommandItem → CommandItem) → Shared B → Shared B
  write_item a f s = record s { queue = update (modify s.queue a f) a }

  abbrev pub set_metrics : (Metrics → Metrics) → Shared B → Shared B
  set_metrics f s = record s { metrics = f s.metrics }

  -- `retryOrFail` up to its wait: the sender's next wait, or `none` if the command has failed.
  unfoldable pub retry_or_fail : SchedulerConfig → ℕ → String → Shared B → Shared B × Option ℤ
  retry_or_fail config a msg s =
      let item = s.queue.cell a in
      if ltb_ℤ (pos item.retry_count) config.max_retries
      then (
        record s { queue = modify s.queue a (mark_retry msg) },
        some (backoff config.retry_backoff (item.retry_count + 1)),
      )
      else (set_metrics count_failed (write_item a (mark_failed msg) s), none)

  -- `retryOrFail` after its wait.
  unfoldable pub after_backoff : Wake → ℕ → Shared B → Shared B
  after_backoff stopping a s = set_metrics count_failed (write_item a mark_stopped s)
  after_backoff elapsed a s = write_item a mark_requeued s

module _ {B : Type 0} (b : MessageBus B) where
  -- The error of a failed publish is only logged.
  abbrev publish : Event → Shared B → Shared B
  publish e s = record s { bus = (b.publish s.bus e).1 }

  -- `sendItem` up to its wait.
  unfoldable pub start_send : String → ℕ → ℕ → Shared B → Shared B
  start_send event_id now a s =
      set_metrics (λ m. record m { total_sent = m.total_sent + 1 })
        (publish (command_sent event_id now (s.queue.cell a).command) s)

  -- The branch of `sendItem` for a successful acknowledgement.
  unfoldable pub confirm : String → ℕ → ℕ → Ack → Shared B → Shared B
  confirm event_id now a ack s =
      let written = write_item a (mark_acked now ack) s in
      set_metrics (record_ack true)
        (publish (command_acked event_id now (s.queue.cell a).command ack) written)

  -- `sendItem` after its wait.
  unfoldable pub finish_send :
      SchedulerConfig → String → ℕ → ℕ → Outcome → Shared B → Shared B × Option ℤ
  finish_send config event_id now a no_adapter s = retry_or_fail config a "未设置指令适配器" s
  finish_send config event_id now a timed_out s =
      retry_or_fail config a "发送超时"
        (set_metrics (λ m. record m { total_timeout = m.total_timeout + 1 }) s)
  finish_send config event_id now a (send_error msg us) s =
      retry_or_fail config a msg (set_metrics (record_latency us) s)
  finish_send config event_id now a (answered ack us) s =
      let timed = set_metrics (record_latency us) s in
      if ack.success
      then (confirm event_id now a ack timed, none)
      else retry_or_fail config a ack.message timed

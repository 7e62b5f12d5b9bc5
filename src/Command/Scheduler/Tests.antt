-- ===== src/Command/Scheduler/Tests.antt =====
-- The scheduler's theorems on one command.
use openspace_os_core.Base.{
  [], ◌∷◌, ℕ, ◌≡◌, ◌≢◌, ◌↔◌, refl, pos, negsuc, true, false, none, some, ◌*◌, ◌^◌, ◌-◌, arith,
  str_eq,
}
use openspace_os_core.Bus.{MessageBus}
use openspace_os_core.Event.Schema.{validate}
use openspace_os_core.Event.Schema.Defaults.{new_schema_registry}
use openspace_os_core.Command.Item.{Command, CommandItem, Ack, sending}
use openspace_os_core.Command.Metrics.{zero_metrics}
use openspace_os_core.Command.Scheduler.{
  SchedulerConfig, Shared, backoff, finish_send, timed_out, command_acked,
}
use openspace_os_core.Command.Scheduler.Backoff.{backoff-overflow}
use openspace_os_core.Command.Scheduler.Outcomes.{after_attempt, finish_send_lem}
use openspace_os_core.Command.Scheduler.Events.{acked-valid_iff}

abbrev silent_bus : MessageBus ℕ
silent_bus = record { publish = λ n e. (none, n) }

abbrev test_config : SchedulerConfig
test_config = record {
  max_concurrent = pos 1;
  timeout = pos 100;
  max_retries = pos 2;
  retry_backoff = pos 10;
}

abbrev test_command : Command
test_command = record {
  command_id = "c1";
  satellite_id = "sat";
  command_type = "reboot";
  parameters = none;
}

abbrev sent_item : CommandItem
sent_item = record {
  command = test_command;
  priority = pos 0;
  status = sending;
  ack = none;
  enqueued_at = 5;
  sent_at = some 6;
  acked_at = none;
  retry_count = 1;
  error = "";
}

abbrev test_shared : Shared ℕ
test_shared = record {
  queue = record { items = ("c1", 0) ∷ []; cell = λ _. sent_item; next = 1 };
  metrics = zero_metrics;
  bus = 0;
}

finish_send_lem_example :
    (
      (finish_send silent_bus test_config "e" 9 0 timed_out test_shared).0.queue.cell 0,
      (finish_send silent_bus test_config "e" 9 0 timed_out test_shared).1,
    )
    ≡ after_attempt test_config 9 timed_out sent_item
finish_send_lem_example = finish_send_lem silent_bus test_config "e" 9 0 timed_out test_shared

second_wait :
    after_attempt test_config 9 timed_out sent_item
    ≡ (record sent_item { retry_count = 2; error = "发送超时" }, some (pos 20))
unfolding backoff
second_wait = refl

-- With the default base of two seconds the 34th wait is negative.
backoff-overflow_example :
    backoff (pos 2_000_000_000) 34 ≡ negsuc (2 ^ 64 - 2_000_000_000 * 2 ^ 33 - 1)
backoff-overflow_example =
    backoff-overflow 2_000_000_000 33 (omega arith) (omega arith) (omega arith)

-- An acknowledgement without a message.
abbrev terse_ack : Ack
terse_ack = record { success = true; message = "" }

abbrev acked_time : ℕ
acked_time = 7

acked-valid_iff_example :
    (validate new_schema_registry (some (command_acked "e" acked_time test_command terse_ack))
      ≡ none)
    ↔ (str_eq "e" "" ≡ false)
      × (str_eq "sat" "" ≡ false)
      × (acked_time ≢ 0)
      × (str_eq "c1" "" ≡ false)
      × (str_eq "" "" ≡ false)
acked-valid_iff_example = acked-valid_iff "e" acked_time test_command terse_ack

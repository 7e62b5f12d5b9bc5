-- ===== src/Command/System/Tests.antt =====
-- Runs of the pipeline on one command, and the theorems on them.
use openspace_os_core.Base.{
  ◌&&◌, arith, ℕ, suc, ◌≡◌, refl, pos, true, Option, none, some, List, [], ◌∷◌, ◌≤◌, lookup,
  pos_part,
}
use openspace_os_core.Bus.{MessageBus}
use openspace_os_core.Command.Item.{Command, Ack, acked, cancelled}
use openspace_os_core.Command.Pipeline.{send, validate, cancel_check}
use openspace_os_core.Command.Queue.{
  enqueue, alloc, new_priority_queue, select_best, pick, update, get, dequeue,
}
use openspace_os_core.Command.Scheduler.{
  finish_send, retry_or_fail, start_send, after_backoff, backoff, confirm, SchedulerConfig,
  with_defaults, timed_out, answered, elapsed,
}
use openspace_os_core.Command.System.{
  set_phase, finish_thread, take_call, send, step, System, Move, submit, check_cancel, write_cancel,
  dispatch, start, finish, wake, run, new_system, has_slot, phase_of, awaiting,
}
use openspace_os_core.Command.System.Steps.{Safe, run-Safe, new_system-Safe}
use openspace_os_core.Command.System.Retries.{attempts, attempts-le}
use openspace_os_core.Command.System.Settled.{IsSettled, run-IsSettled}
use openspace_os_core.Command.System.Change.{view}
use openspace_os_core.Command.System.Race.{cancel_race}

-- A bus that counts its events.
abbrev counting_bus : MessageBus ℕ
counting_bus = record { publish = λ n e. (none, suc n) }

abbrev test_command : Command
test_command = record {
  command_id = "c1";
  satellite_id = "sat";
  command_type = "reboot";
  parameters = none;
}

abbrev test_config : SchedulerConfig
test_config = record {
  max_concurrent = pos 1;
  timeout = pos 100;
  max_retries = pos 1;
  retry_backoff = pos 10;
}

abbrev test_start : System ℕ
test_start = new_system test_config 0

abbrev good_ack : Ack
good_ack = record { success = true; message = "done" }

-- One attempt times out, the next is acknowledged.
abbrev test_moves : List Move
test_moves =
    submit "u" 5 test_command (pos 1)
    ∷ dispatch 6
    ∷ start 0 "e1" 7
    ∷ finish 0 timed_out "e2" 8
    ∷ wake 0 elapsed
    ∷ dispatch 9
    ∷ start 0 "e3" 10
    ∷ finish 0 (answered good_ack 4) "e4" 11
    ∷ []

abbrev end_of : System ℕ → Option (System ℕ) → System ℕ
end_of s none = s
end_of s (some t) = t

abbrev test_end : System ℕ
test_end = end_of test_start (run counting_bus test_moves test_start)

test_run : run counting_bus test_moves test_start ≡ some test_end
unfolding run step send validate enqueue alloc new_system new_priority_queue with_defaults phase_of
    dequeue select_best pick set_phase finish_send retry_or_fail start_send finish_thread
    after_backoff backoff update confirm
test_run = refl

-- Two attempts, which is the most that one retry allows.
test_attempts : attempts 0 test_moves ≡ 2
unfolding attempts
test_attempts = refl

test_end-acked : (test_end.shared.queue.cell 0).status ≡ acked
unfolding run step send validate enqueue alloc new_system new_priority_queue with_defaults phase_of
    dequeue select_best pick set_phase finish_send retry_or_fail start_send finish_thread
    after_backoff backoff update confirm
test_end-acked = refl

run-Safe_example : Safe test_end
run-Safe_example =
    run-Safe counting_bus test_moves test_start (new_system-Safe test_config 0) test_run

attempts-le_example : attempts 0 test_moves ≤ suc (pos_part (with_defaults test_config).max_retries)
attempts-le_example = attempts-le counting_bus test_config 0 0 test_moves test_run

test_end-IsSettled : IsSettled (view test_end) 0 (test_end.shared.queue.cell 0)
unfolding run step send validate enqueue alloc new_system new_priority_queue with_defaults phase_of
    dequeue select_best pick set_phase finish_send retry_or_fail start_send finish_thread
    after_backoff backoff update confirm take_call
test_end-IsSettled = record {
  item = refl;
  final = refl;
  present = omega arith;
  free = refl;
  uncancelled = refl;
}

-- A later submission of another command, and its dispatch.
abbrev later_moves : List Move
later_moves =
    submit "u" 20 (record test_command { command_id = "c2" }) (pos 0)
    ∷ check_cancel "c1"
    ∷ dispatch 21
    ∷ []

abbrev later_end : System ℕ
later_end = end_of test_end (run counting_bus later_moves test_end)

later_run : run counting_bus later_moves test_end ≡ some later_end
unfolding run step send validate enqueue alloc new_system new_priority_queue with_defaults phase_of
    dequeue select_best pick set_phase finish_send retry_or_fail start_send finish_thread
    after_backoff backoff update confirm cancel_check get
later_run = refl

run-IsSettled_example : IsSettled (view later_end) 0 (test_end.shared.queue.cell 0)
run-IsSettled_example =
    run-IsSettled counting_bus 0 (test_end.shared.queue.cell 0) later_moves test_end
      run-Safe_example test_end-IsSettled later_run

-- One queued command, and a slot for it.
abbrev queued_state : System ℕ
queued_state =
    end_of test_start (run counting_bus (submit "u" 5 test_command (pos 1) ∷ []) test_start)

queued_run :
    run counting_bus (submit "u" 5 test_command (pos 1) ∷ []) test_start ≡ some queued_state
unfolding run step send validate enqueue alloc new_system new_priority_queue with_defaults phase_of
    dequeue select_best pick set_phase finish_send retry_or_fail start_send finish_thread
    after_backoff backoff update confirm
queued_run = refl

queued_state-Safe : Safe queued_state
queued_state-Safe =
    run-Safe counting_bus (submit "u" 5 test_command (pos 1) ∷ []) test_start
      (new_system-Safe test_config 0) queued_run

queued_known : lookup "c1" queued_state.shared.queue.items ≡ some 0
unfolding run step send validate enqueue alloc new_system new_priority_queue with_defaults phase_of
    dequeue select_best pick set_phase finish_send retry_or_fail start_send finish_thread
    after_backoff backoff update confirm
queued_known = refl

queued_best : (dequeue queued_state.shared.queue 6).0 ≡ some 0
unfolding run step send validate enqueue alloc new_system new_priority_queue with_defaults phase_of
    dequeue select_best pick set_phase finish_send retry_or_fail start_send finish_thread
    after_backoff backoff update confirm
queued_best = refl

queued_slot : queued_state.running && has_slot queued_state ≡ true
unfolding run step send validate enqueue alloc new_system new_priority_queue with_defaults phase_of
    dequeue select_best pick set_phase finish_send retry_or_fail start_send finish_thread
    after_backoff backoff update confirm
queued_slot = refl

cancel_race_example :
    (t u : System ℕ) × (run counting_bus
        (check_cancel "c1" ∷ dispatch 6 ∷ start 0 "e1" 7 ∷ write_cancel 0 ∷ [])
        queued_state
      ≡ some t)
    × ((t.shared.queue.cell 0).status ≡ cancelled)
    × (phase_of 0 t.threads ≡ some awaiting)
    × (run counting_bus (finish 0 (answered good_ack 4) "e2" 8 ∷ []) t ≡ some u)
    × ((u.shared.queue.cell 0).status ≡ acked)
cancel_race_example =
    cancel_race counting_bus queued_state queued_state-Safe "c1" 0 6 queued_known queued_best
      queued_slot "e1" "e2" 7 8 good_ack 4 refl

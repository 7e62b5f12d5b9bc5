-- ===== src/Command/Pipeline.antt =====
-- internal/pipeline/command/pipeline.go and validator.go: what the API calls. `Cancel` reads the
-- item's status under the queue's lock and writes it later without one, so it is two steps.
pub mod Requests
pub mod Kept
pub mod Tests
use openspace_os_core.Base.{
  ℕ, ℤ, String, Bool, true, false, Option, none, some, List, map, if◌then◌else◌, str_eq,
}
use openspace_os_core.Event.{Payload}
use openspace_os_core.Command.Item.{
  Command, CommandItem, Ack, Status, queued, cancelled, is_queued, is_unset,
}
use openspace_os_core.Command.Queue.{
  PriorityQueue, QueueError, Result, ok, err, modify, alloc, enqueue, get, update, list,
  list_by_status,
}

pub data Invalid : Type 0 where
  nil_command empty_command_id empty_satellite_id empty_command_type : Invalid

-- `Validate`; `none` is the nil error.
unfoldable pub validate : Option Command → Option Invalid
validate none = some nil_command
validate (some c) =
    if str_eq c.command_id ""
    then some empty_command_id
    else if str_eq c.satellite_id ""
    then some empty_satellite_id
    else if str_eq c.command_type ""
    then some empty_command_type
    else none

pub data SendError : Type 0 where
  invalid : Invalid → SendError
  not_queued : QueueError → SendError

pub data Sent : Type 0 where
  accepted : PriorityQueue → Sent
  refused : SendError → Sent

-- `cmd.CommandID = uuid.NewString()` where it is empty.
abbrev pub with_id : String → Command → Command
with_id uuid c = record c { command_id = if str_eq c.command_id "" then uuid else c.command_id }

abbrev pub new_item : Command → ℤ → ℕ → CommandItem
new_item c priority now = record {
  command = c;
  priority = priority;
  status = queued;
  ack = none;
  enqueued_at = now;
  sent_at = none;
  acked_at = none;
  retry_count = 0;
  error = "";
}

abbrev pub enqueued : Result PriorityQueue → Sent
enqueued (ok q) = accepted q
enqueued (err e) = refused (not_queued e)

-- `&CommandItem{…}` and `Enqueue`.
abbrev pub enqueue_new : CommandItem → ℕ → PriorityQueue → Sent
enqueue_new item now q = let (a, q') = alloc item q in enqueued (enqueue q' (some a) now)

-- `Send`; `validating` says that a validator is set. `now` is `time.Now()`.
unfoldable pub send : Bool → String → ℕ → Command → ℤ → PriorityQueue → Sent
send validating uuid now cmd priority q =
    let c = with_id uuid cmd in
    elim (if validating then validate (some c) else none) [
      | some e ↦ refused (invalid e)
      | none ↦ enqueue_new (new_item c priority now) now q
    ]

-- The answer to a status query.
pub record CommandStatus : Type 0 where
  pub command_id : String
  pub satellite_id : String
  pub command_type : String
  pub parameters : Payload
  pub priority : ℤ
  pub status : Status
  pub enqueued_at : ℕ
  pub sent_at : Option ℕ
  pub acked_at : Option ℕ
  pub retry_count : ℕ
  pub error : String
  pub ack : Option Ack

unfoldable pub item_to_status : CommandItem → CommandStatus
item_to_status i = record {
  command_id = i.command.command_id;
  satellite_id = i.command.satellite_id;
  command_type = i.command.command_type;
  parameters = i.command.parameters;
  priority = i.priority;
  status = i.status;
  enqueued_at = i.enqueued_at;
  sent_at = i.sent_at;
  acked_at = i.acked_at;
  retry_count = i.retry_count;
  error = i.error;
  ack = i.ack;
}

-- `none` is the error for an unknown id.
unfoldable pub get_status : PriorityQueue → String → Option CommandStatus
get_status q id = elim (get q id) [ none ↦ none | some a ↦ some (item_to_status (q.cell a)) ]

pub data CancelCheck : Type 0 where
  may_cancel : ℕ → CancelCheck
  not_found : String → CancelCheck
  not_pending : String → Status → CancelCheck

-- `Cancel` up to the test of the status: the item to write to, or the error.
unfoldable pub cancel_check : PriorityQueue → String → CancelCheck
cancel_check q id = elim (get q id) [
  | none ↦ not_found id
  | some a ↦ if is_queued (q.cell a).status then may_cancel a else not_pending id (q.cell a).status
]

abbrev pub mark_cancelled : CommandItem → CommandItem
mark_cancelled i = record i { status = cancelled }

-- `Cancel` from there on.
unfoldable pub cancel_write : ℕ → PriorityQueue → PriorityQueue
cancel_write a q = update (modify q a mark_cancelled) a

-- `Cancel` with nothing in between.
unfoldable pub cancel : PriorityQueue → String → CancelCheck × PriorityQueue
cancel q id = elim (cancel_check q id) [
  | may_cancel a ↦ (may_cancel a, cancel_write a q)
  | not_found k ↦ (not_found k, q)
  | not_pending k s ↦ (not_pending k s, q)
]

unfoldable pub list_commands : PriorityQueue → Status → List CommandStatus
list_commands q status =
    map (λ a. item_to_status (q.cell a))
      (if is_unset status then list q else list_by_status q status)

-- ===== src/Command/Pipeline/Tests.antt =====
-- The requests of the API on a queue of one command.
use openspace_os_core.Base.{true, refl, pos, none, arith}
use openspace_os_core.Command.Item.{Command}
use openspace_os_core.Command.Queue.{PriorityQueue, new_priority_queue, alloc, enqueue}
use openspace_os_core.Command.Queue.Valid.{
  alloc-IsValid, enqueue-IsValid, IsValid, new_priority_queue-IsValid,
}
use openspace_os_core.Command.Pipeline.{
  with_id, Sent, accepted, refused, send, validate, cancel, new_item,
}
use openspace_os_core.Command.Pipeline.Requests.{
  SendSpec, send-SendSpec, CancelSpec, cancel-CancelSpec,
}

abbrev test_command : Command
test_command = record {
  command_id = "";
  satellite_id = "sat";
  command_type = "reboot";
  parameters = none;
}

abbrev queue_of : Sent → PriorityQueue
queue_of (accepted q) = q
queue_of (refused e) = new_priority_queue

-- The command under the id "u", which `Send` makes for it.
abbrev one_item : PriorityQueue
one_item = queue_of (send true "u" 5 test_command (pos 1) new_priority_queue)

send-SendSpec_example :
    SendSpec "u" 5 test_command
      (pos 1)
      new_priority_queue
      (send true "u" 5 test_command (pos 1) new_priority_queue)
send-SendSpec_example =
    send-SendSpec "u" 5 test_command (pos 1) new_priority_queue new_priority_queue-IsValid

one_item-IsValid : IsValid one_item
unfolding send validate enqueue alloc new_priority_queue
one_item-IsValid =
    enqueue-IsValid (alloc (new_item (with_id "u" test_command) (pos 1) 5) new_priority_queue).1 0 5
      (alloc-IsValid (new_item (with_id "u" test_command) (pos 1) 5) new_priority_queue
        new_priority_queue-IsValid)
      (omega arith) refl

cancel-CancelSpec_example : CancelSpec one_item "u" (cancel one_item "u")
cancel-CancelSpec_example = cancel-CancelSpec one_item "u" one_item-IsValid

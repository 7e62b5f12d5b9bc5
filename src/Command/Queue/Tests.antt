-- ===== src/Command/Queue/Tests.antt =====
-- A queue of three commands, and the theorems on it.
use openspace_os_core.Base.{ℕ, ◌≡◌, refl, ℤ, pos, none, some, [], ◌∷◌, String, arith}
use openspace_os_core.Command.Item.{CommandItem, queued}
use openspace_os_core.Command.Queue.{
  PriorityQueue, Result, ok, err, alloc, enqueue, new_priority_queue, select_best, pick, ahead,
  dequeue,
}
use openspace_os_core.Command.Queue.Valid.{
  IsValid, new_priority_queue-IsValid, alloc-IsValid, enqueue-IsValid, dequeue-IsValid,
}
use openspace_os_core.Command.Queue.Drain.{drain, IsDrained, drain-IsDrained}

abbrev test_item : String → ℤ → CommandItem
test_item id priority = record {
  command = record { command_id = id; satellite_id = "sat"; command_type = "t"; parameters = none };
  priority = priority;
  status = queued;
  ack = none;
  enqueued_at = 0;
  sent_at = none;
  acked_at = none;
  retry_count = 0;
  error = "";
}

abbrev queue_of : PriorityQueue → Result PriorityQueue → PriorityQueue
queue_of q (ok r) = r
queue_of q (err e) = q

-- The queue with one more item.
abbrev allocated : String → ℤ → PriorityQueue → PriorityQueue
allocated id priority q = (alloc (test_item id priority) q).1

abbrev with_item : String → ℤ → ℕ → PriorityQueue → PriorityQueue
with_item id priority now q = queue_of q (enqueue (allocated id priority q) (some q.next) now)

abbrev one_item : PriorityQueue
one_item = with_item "low" (pos 1) 5 new_priority_queue

abbrev two_items : PriorityQueue
two_items = with_item "high" (pos 9) 6 one_item

abbrev three_items : PriorityQueue
three_items = with_item "high2" (pos 9) 7 two_items

enqueue_one : enqueue (allocated "low" (pos 1) new_priority_queue) (some 0) 5 ≡ ok one_item
unfolding enqueue alloc new_priority_queue
enqueue_one = refl

enqueue_two : enqueue (allocated "high" (pos 9) one_item) (some 1) 6 ≡ ok two_items
unfolding enqueue alloc new_priority_queue
enqueue_two = refl

enqueue_three : enqueue (allocated "high2" (pos 9) two_items) (some 2) 7 ≡ ok three_items
unfolding enqueue alloc new_priority_queue
enqueue_three = refl

one_item-IsValid : IsValid one_item
unfolding alloc new_priority_queue
one_item-IsValid =
    enqueue-IsValid (allocated "low" (pos 1) new_priority_queue) 0 5
      (alloc-IsValid _ _ new_priority_queue-IsValid) (omega arith) enqueue_one

two_items-IsValid : IsValid two_items
unfolding enqueue alloc new_priority_queue
two_items-IsValid =
    enqueue-IsValid (allocated "high" (pos 9) one_item) 1 6
      (alloc-IsValid (test_item "high" (pos 9)) one_item one_item-IsValid) (omega arith) enqueue_two

three_items-IsValid : IsValid three_items
unfolding enqueue alloc new_priority_queue
three_items-IsValid =
    enqueue-IsValid (allocated "high2" (pos 9) two_items) 2 7
      (alloc-IsValid (test_item "high2" (pos 9)) two_items two_items-IsValid) (omega arith)
      enqueue_three

dequeue-IsValid_example : IsValid (dequeue three_items 8).1
dequeue-IsValid_example = dequeue-IsValid three_items 8 three_items-IsValid

-- The higher priority first, then the earlier entry.
drain_order : (drain (8 ∷ 9 ∷ 10 ∷ 11 ∷ []) three_items).0 ≡ 1 ∷ 2 ∷ 0 ∷ []
unfolding enqueue alloc new_priority_queue dequeue select_best pick ahead drain
drain_order = refl

drain-IsDrained_example : IsDrained three_items 4 (drain (8 ∷ 9 ∷ 10 ∷ 11 ∷ []) three_items)
drain-IsDrained_example = drain-IsDrained (8 ∷ 9 ∷ 10 ∷ 11 ∷ []) three_items three_items-IsValid

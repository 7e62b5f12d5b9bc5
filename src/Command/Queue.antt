-- ===== src/Command/Queue.antt =====
-- internal/pipeline/command/queue.go. The map holds pointers, and callers keep and write through the
-- same pointers, so the items stand in `cell`, at addresses, and the map holds addresses.
-- `time.Now()` is the argument `now`; each call runs under the queue's lock, so it is one step.
pub mod Valid
pub mod Best
pub mod Listing
pub mod Drain
pub mod Tests
use openspace_os_core.Base.{
  ℕ, suc, ℤ, String, Bool, true, false, ◌&&◌, ◌||◌, Option, none, some, List, [], ◌∷◌, map, str_eq,
  if◌then◌else◌, ltb, ltb_ℤ, eqb_ℤ, ◌==◌, lookup, insert, erase, length, keep_if, count_if, sort_by,
}
use openspace_os_core.Command.Item.{
  Command, CommandItem, Status, unset, queued, sending, is_unset, is_queued, status_eq,
}

pub record PriorityQueue : Type 0 where
  pub items : List (String × ℕ)
  pub cell : ℕ → CommandItem
  pub next : ℕ

pub data QueueError : Type 0 where
  nil_item empty_id : QueueError
  already_exists : String → QueueError

pub data Result (A : Type 0) : Type 0 where
  ok : A → Result A
  err : QueueError → Result A

-- Writing through the pointer `a`.
abbrev pub modify : PriorityQueue → ℕ → (CommandItem → CommandItem) → PriorityQueue
modify q a f = record q { cell = λ b. if b == a then f (q.cell a) else q.cell b }

-- `&CommandItem{…}`: a fresh address, and the queue with the item there.
unfoldable pub alloc : CommandItem → PriorityQueue → ℕ × PriorityQueue
alloc item q = (q.next, record (modify q q.next (λ _. item)) { next = suc q.next })

abbrev zero_item : CommandItem
zero_item = record {
  command = record { command_id = ""; satellite_id = ""; command_type = ""; parameters = none };
  priority = ℤ.pos 0;
  status = unset;
  ack = none;
  enqueued_at = 0;
  sent_at = none;
  acked_at = none;
  retry_count = 0;
  error = "";
}

unfoldable pub new_priority_queue : PriorityQueue
new_priority_queue = record { items = []; cell = λ _. zero_item; next = 0 }

abbrev pub id_at : PriorityQueue → ℕ → String
id_at q a = (q.cell a).command.command_id

-- The defaults that `Enqueue` fills in.
abbrev pub fill_defaults : ℕ → CommandItem → CommandItem
fill_defaults now item = record item {
  status = if is_unset item.status then queued else item.status;
  enqueued_at = if item.enqueued_at == 0 then now else item.enqueued_at;
}

unfoldable pub enqueue : PriorityQueue → Option ℕ → ℕ → Result PriorityQueue
enqueue q none now = err nil_item
enqueue q (some a) now =
    if str_eq (id_at q a) "" then err empty_id else elim (lookup (id_at q a) q.items) [
      | some _ ↦ err (already_exists (id_at q a))
      | none ↦ ok (record (modify q a (fill_defaults now)) { items = insert (id_at q a) a q.items })
    ]

-- `x` goes before `y`: a higher priority, or the same one and an earlier entry.
unfoldable pub ahead : CommandItem → CommandItem → Bool
ahead x y =
    ltb_ℤ y.priority x.priority || (eqb_ℤ x.priority y.priority && ltb x.enqueued_at y.enqueued_at)

-- One round of the loop of `Dequeue`.
unfoldable pub pick : (ℕ → CommandItem) → ℕ → Option ℕ → Option ℕ
pick cell a none = if is_queued (cell a).status then some a else none
pick cell a (some b) =
    if is_queued (cell a).status then if ahead (cell a) (cell b) then some a else some b else some b

unfoldable pub select_best : (ℕ → CommandItem) → List (String × ℕ) → Option ℕ → Option ℕ
select_best cell [] best = best
select_best cell ((_, a) ∷ m) best = select_best cell m (pick cell a best)

abbrev pub mark_sending : ℕ → CommandItem → CommandItem
mark_sending now item = record item { status = sending; sent_at = some now }

unfoldable pub dequeue : PriorityQueue → ℕ → Option ℕ × PriorityQueue
dequeue q now = elim (select_best q.cell q.items none) [
  | none ↦ (none, q)
  | some a ↦ (some a, modify q a (mark_sending now))
]

unfoldable pub get : PriorityQueue → String → Option ℕ
get q id = lookup id q.items

unfoldable pub update : PriorityQueue → ℕ → PriorityQueue
update q a = elim (lookup (id_at q a) q.items) [
  | none ↦ q
  | some _ ↦ record q { items = insert (id_at q a) a q.items }
]

unfoldable pub remove : PriorityQueue → String → PriorityQueue
remove q id = record q { items = erase id q.items }

unfoldable pub len : PriorityQueue → ℕ
len q = length q.items

abbrev pub addresses : PriorityQueue → List ℕ
addresses q = map (λ e. e.1) q.items

abbrev pub by_entry_time : PriorityQueue → List ℕ → List ℕ
by_entry_time q = sort_by (λ a. (q.cell a).enqueued_at)

unfoldable pub list : PriorityQueue → List ℕ
list q = by_entry_time q (addresses q)

unfoldable pub list_by_status : PriorityQueue → Status → List ℕ
list_by_status q status =
    by_entry_time q (keep_if (λ a. status_eq (q.cell a).status status) (addresses q))

unfoldable pub pending_count : PriorityQueue → ℕ
pending_count q = count_if (λ a. is_queued (q.cell a).status) (addresses q)

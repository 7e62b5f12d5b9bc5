-- ===== src/Command/Pipeline/Kept.antt =====
-- The queue stays well formed through pipeline.go's `Send` and `Cancel`.
use openspace_os_core.Base.{
  ℤ, ℕ, ◌≡◌, refl, inl, inr, String, true, some, arith, Option-cases, lookup, Bool-cases,
}
use openspace_os_core.Command.Item.{Command, is_queued}
use openspace_os_core.Command.Queue
use openspace_os_core.Command.Queue.{PriorityQueue, Result, alloc, enqueue, modify, get}
use openspace_os_core.Command.Queue.Valid.{
  IsValid, enqueue-IsValid, alloc-IsValid, update-IsValid, modify-IsValid,
}
use openspace_os_core.Command.Pipeline.{
  accepted, send, with_id, new_item, validate, enqueued, cancel, cancel_check, cancel_write,
  mark_cancelled,
}

accepted_of :
    (r : Result PriorityQueue) (q : PriorityQueue) → enqueued r ≡ accepted q → r ≡ Queue.ok q
accepted_of (Queue.ok x) q h = ground arith
accepted_of (Queue.err e) q h = absurd (ground arith)

-- What `Send` accepts into a well-formed queue leaves it well formed.
pub send-IsValid :
    (now : ℕ) (uuid : String) (c : Command) (priority : ℤ) (q q' : PriorityQueue)
    → IsValid q
    → send true uuid now c priority q ≡ accepted q'
    → IsValid q'
unfolding send alloc
send-IsValid now uuid c priority q q' v h =
    let item = new_item (with_id uuid c) priority now in
    elim (Option-cases (validate (some (with_id uuid c)))) [
      | inr (e, i) ↦ absurd (ground (arith, i, h))
      | inl i ↦
          enqueue-IsValid (alloc item q).1 q.next now (alloc-IsValid item q v) (omega arith)
            (accepted_of _ q' (ground (arith, i, h)))
    ]

-- So does `Cancel`, whatever it answers.
pub cancel-IsValid : (q : PriorityQueue) (id : String) → IsValid q → IsValid (cancel q id).1
unfolding cancel cancel_check cancel_write get
cancel-IsValid q id v = elim (Option-cases (lookup id q.items)) [
  | inl e ↦ rw (e, cancel, cancel_check, get) v
  | inr (a, e) ↦ elim (Bool-cases (is_queued (q.cell a).status)) [
    | inr other ↦ rw (e, other, cancel, cancel_check, get) v
    | inl waits ↦
        rw (e, waits, cancel, cancel_check, get, cancel_write)
          (update-IsValid (modify q a mark_cancelled) a (v.entries id a e).allocated
            (modify-IsValid q a mark_cancelled refl v))
  ]
]

-- ===== src/Command/Queue/Valid.antt =====
-- The invariant of the queue of internal/pipeline/command/queue.go.
use openspace_os_core.Base.{
  ◌⊎◌, inl, inr, insert, ℕ, ◌<◌, ◌≡◌, refl, String, none, some, arith, str_eq, eq_iff, lookup,
  IsMap, Option-cases, lookup-insert, lookup-erase, insert-IsMap, erase-IsMap, insert_same, false,
}
use openspace_os_core.Command.Item.{CommandItem}
use openspace_os_core.Command.Queue.{
  PriorityQueue, ok, id_at, modify, fill_defaults, mark_sending, new_priority_queue, enqueue,
  dequeue, update, remove, alloc, select_best,
}

-- What the map holds under a key: an allocated item whose command has that id, never "".
pub record IsEntry (q : PriorityQueue) (k : String) (a : ℕ) : Type 0 where
  pub named : id_at q a ≡ k
  pub allocated : a < q.next
  pub nonempty : str_eq k "" ≡ false

pub record IsValid (q : PriorityQueue) : Type 0 where
  pub distinct : IsMap q.items
  pub entries : (k : String) (a : ℕ) → lookup k q.items ≡ some a → IsEntry q k a

-- An id leads to one item, and an item has one id.
pub lookup_injective :
    (q : PriorityQueue) (k j : String) (a : ℕ)
    → IsValid q
    → lookup k q.items ≡ some a
    → lookup j q.items ≡ some a
    → k ≡ j
lookup_injective q k j a v h g = ground (arith, v.entries k a h, v.entries j a g)

pub new_priority_queue-IsValid : IsValid new_priority_queue
unfolding new_priority_queue
new_priority_queue-IsValid = record { distinct = tt; entries = λ k a h. absurd (ground arith) }

-- A write that keeps the command keeps the invariant.
pub modify-IsValid :
    (q : PriorityQueue) (a : ℕ) (f : CommandItem → CommandItem)
    → (f (q.cell a)).command ≡ (q.cell a).command
    → IsValid q
    → IsValid (modify q a f)
modify-IsValid q a f same v = record {
  distinct = v.distinct;
  entries = λ k b h. ground (arith, v.entries k b h);
}

pub alloc-IsValid : (item : CommandItem) (q : PriorityQueue) → IsValid q → IsValid (alloc item q).1
unfolding alloc
alloc-IsValid item q v = record {
  distinct = v.distinct;
  entries = λ k b h. ground (arith, v.entries k b h);
}

-- A successful `Enqueue`: the id was new, and the item is stored under it.
pub enqueue-ok :
    (q : PriorityQueue) (a now : ℕ) {q' : PriorityQueue}
    → enqueue q (some a) now ≡ ok q'
    → (lookup (id_at q a) q.items ≡ none)
      × (str_eq (id_at q a) "" ≡ false)
      × (q' ≡ record (modify q a (fill_defaults now)) { items = insert (id_at q a) a q.items })
unfolding enqueue
enqueue-ok q a now h = ground arith

-- A successful `Enqueue` of an allocated item keeps a well-formed queue well formed.
pub enqueue-IsValid :
    (q : PriorityQueue) (a now : ℕ) {q' : PriorityQueue}
    → IsValid q
    → a < q.next
    → enqueue q (some a) now ≡ ok q'
    → IsValid q'
enqueue-IsValid q a now v fresh h =
    let (new, named, e) = enqueue-ok q a now h in
    rw e (record {
      distinct = insert-IsMap (id_at q a) a q.items v.distinct;
      entries = λ k b g.
          ground
            (arith, v.entries k b, lookup-insert (id_at q a) k a q.items, eq_iff (id_at q a) k);
    })

pub dequeue-IsValid : (q : PriorityQueue) (now : ℕ) → IsValid q → IsValid (dequeue q now).1
unfolding dequeue
dequeue-IsValid q now v = elim (Option-cases (select_best q.cell q.items none)) [
  | inl e ↦ rw (e, dequeue) v
  | inr (a, e) ↦ rw (e, dequeue) (modify-IsValid q a (mark_sending now) refl v)
]

-- `Update` through the pointer that the map holds, or of an unknown id, changes nothing.
pub update_known :
    (q : PriorityQueue) (a : ℕ)
    → (lookup (id_at q a) q.items ≡ none) ⊎ (lookup (id_at q a) q.items ≡ some a)
    → update q a ≡ q
unfolding update
update_known q a (inl e) = rw (e, update)
update_known q a (inr e) = rw (e, update) (ground (arith, insert_same (id_at q a) a q.items))

-- `Update` with an allocated item keeps a well-formed queue well formed.
pub update-IsValid : (q : PriorityQueue) (a : ℕ) → a < q.next → IsValid q → IsValid (update q a)
unfolding update
update-IsValid q a fresh v = elim (Option-cases (lookup (id_at q a) q.items)) [
  | inl e ↦ rw (e, update) v
  | inr (b, e) ↦
      rw (e, update)
        (record {
          distinct = insert-IsMap (id_at q a) a q.items v.distinct;
          entries = λ k c g. ground (
            arith,
            v.entries k c,
            v.entries (id_at q a) b e,
            lookup-insert (id_at q a) k a q.items,
            eq_iff (id_at q a) k,
          );
        })
]

-- `Remove` keeps a well-formed queue well formed.
pub remove-IsValid : (q : PriorityQueue) (id : String) → IsValid q → IsValid (remove q id)
unfolding remove
remove-IsValid q id v = record {
  distinct = erase-IsMap id q.items v.distinct;
  entries = λ k a h. ground (arith, v.entries k a, lookup-erase id k q.items v.distinct);
}

pub cell-update : (q : PriorityQueue) (a : ℕ) → (update q a).cell ≡ q.cell
unfolding update
cell-update q a = ground arith

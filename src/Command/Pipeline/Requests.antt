-- ===== src/Command/Pipeline/Requests.antt =====
-- What the API's calls promise their callers.
use openspace_os_core.Base.{
  if_of_false, ◌↔◌, ℕ, ◌≡◌, refl, ◌≢◌, ℤ, String, true, false, none, some, arith, lookup, insert,
  str_eq, eq_iff, Option-cases, Bool-cases, inl, inr, ◌==◌, lookup-insert, if◌then◌else◌,
}
use openspace_os_core.Command.Item.{Command, CommandItem, Status, queued, cancelled, is_queued}
use openspace_os_core.Command.Queue.{
  fill_defaults, PriorityQueue, ok, err, already_exists, modify, alloc, enqueue, get,
}
use openspace_os_core.Command.Queue.Valid.{IsValid, update_known}
use openspace_os_core.Command.Pipeline.{
  enqueue_new, validate, invalid, not_queued, Sent, accepted, refused, with_id, new_item, send,
  CommandStatus, item_to_status, get_status, CancelCheck, may_cancel, not_found, not_pending,
  cancel_check, cancel_write, cancel, mark_cancelled,
}

-- `Validate` passes a command exactly when its id, satellite and type are not empty.
pub record IsComplete (c : Command) : Type 0 where
  pub id : str_eq c.command_id "" ≡ false
  pub satellite : str_eq c.satellite_id "" ≡ false
  pub type : str_eq c.command_type "" ≡ false

-- The validator accepts a command exactly when its id, its satellite id and its type are not empty.
pub validate-eq-none_iff : (c : Command) → (validate (some c) ≡ none) ↔ IsComplete c
unfolding validate
validate-eq-none_iff c = (
  λ h. record { id = ground arith; satellite = ground arith; type = ground arith },
  λ h. ground (arith, h.id, h.satellite, h.type),
)

get_status-known :
    (q : PriorityQueue) (id : String) (a : ℕ)
    → lookup id q.items ≡ some a
    → get_status q id ≡ some (item_to_status (q.cell a))
unfolding get_status get
get_status-known q id a e = rw (e, get_status, get)

get_status-unknown :
    (q : PriorityQueue) (id : String) → lookup id q.items ≡ none → get_status q id ≡ none
unfolding get_status get
get_status-unknown q id e = rw (e, get_status, get)

module _ (uuid : String) (now : ℕ) (cmd : Command) (priority : ℤ) (q : PriorityQueue) where
  abbrev sent_id : String
  sent_id = (with_id uuid cmd).command_id

  -- The item that `Send` makes.
  abbrev sent_item : CommandItem
  sent_item = new_item (with_id uuid cmd) priority now

  -- What each result of `Send` says, in terms of what status queries see.
  abbrev pub SendSpec : Sent → Type 0
  SendSpec (refused (invalid e)) = validate (some (with_id uuid cmd)) ≡ some e
  SendSpec (refused (not_queued e)) = (e ≡ already_exists sent_id) × (get_status q sent_id ≢ none)
  SendSpec (accepted q') =
      (validate (some (with_id uuid cmd)) ≡ none)
      × (get_status q sent_id ≡ none)
      × ((j : String)
          → get_status q' j
            ≡ (if str_eq sent_id j then some (item_to_status sent_item) else get_status q j))

  enqueue-old :
      (a : ℕ)
      → str_eq sent_id "" ≡ false
      → lookup sent_id q.items ≡ some a
      → enqueue (alloc sent_item q).1 (some (alloc sent_item q).0) now
        ≡ err (already_exists sent_id)
  unfolding enqueue alloc
  enqueue-old a named old = ground arith

  enqueue-new :
      str_eq sent_id "" ≡ false
      → lookup sent_id q.items ≡ none
      → (q' : PriorityQueue) × (enqueue (alloc sent_item q).1 (some (alloc sent_item q).0) now
          ≡ ok q')
        × (q'.items ≡ insert sent_id q.next q.items)
        × ((b : ℕ) → q'.cell b ≡ (if b == q.next then sent_item else q.cell b))
  unfolding enqueue alloc
  enqueue-new named new = (
    record (modify (alloc sent_item q).1 q.next (fill_defaults now)) {
      items = insert sent_id q.next q.items;
    },
    ground arith,
    refl,
    λ b. ground arith,
  )

  get_status-new :
      (q' : PriorityQueue)
      → IsValid q
      → q'.items ≡ insert sent_id q.next q.items
      → ((b : ℕ) → q'.cell b ≡ (if b == q.next then sent_item else q.cell b))
      → (j : String)
      → get_status q' j
        ≡ (if str_eq sent_id j then some (item_to_status sent_item) else get_status q j)
  unfolding get_status get
  get_status-new q' v items cells j = elim (Option-cases (lookup j q.items)) [
    | inl n ↦ ground (arith, items, cells q.next, lookup-insert sent_id j q.next q.items)
    | inr (a, e) ↦ ground (
      arith,
      items,
      cells q.next,
      cells a,
      (v.entries j a e).allocated,
      lookup-insert sent_id j q.next q.items,
    )
  ]

  -- On a well-formed queue `Send` either refuses an incomplete command, or refuses an id that has a
  -- status already, or accepts: then the id had no status, its status is now that of the new item
  -- (queued, never tried), and every other id's status is what it was.
  pub send-SendSpec : IsValid q → SendSpec (send true uuid now cmd priority q)
  unfolding send
  send-SendSpec v = elim (Option-cases (validate (some (with_id uuid cmd)))) [
    | inr (e, h) ↦ rw (h, send) h
    | inl h ↦
        let complete = (validate-eq-none_iff (with_id uuid cmd)).0 h in
        rw (h, send) (queues complete.id h)
  ]
    where
      queues :
          str_eq sent_id "" ≡ false
          → validate (some (with_id uuid cmd)) ≡ none
          → SendSpec (enqueue_new sent_item now q)
      queues named h = elim (Option-cases (lookup sent_id q.items)) [
        | inr (a, old) ↦
            rw (enqueue-old a named old)
              (refl, λ n. ground (arith, get_status-known q sent_id a old))
        | inl new ↦
            let (q', e, items, cells) = enqueue-new named new in
            rw e (h, get_status-unknown q sent_id new, get_status-new q' v items cells)
      ]

-- What each result of `Cancel` says, in terms of what status queries see.
abbrev pub CancelSpec : PriorityQueue → String → CancelCheck × PriorityQueue → Type 0
CancelSpec q id (not_found k, q') = (get_status q id ≡ none) × (q' ≡ q)
CancelSpec q id (not_pending k s, q') =
    (st : CommandStatus) × (get_status q id ≡ some st)
    × (st.status ≡ s)
    × (is_queued s ≡ false)
    × (q' ≡ q)
CancelSpec q id (may_cancel a, q') =
    (st : CommandStatus) × (get_status q id ≡ some st)
    × (st.status ≡ queued)
    × ((j : String)
        → get_status q' j
          ≡ (if str_eq id j then some (record st { status = cancelled }) else get_status q j))

cancel_write-modify :
    (q : PriorityQueue) (id : String) (a : ℕ)
    → IsValid q
    → lookup id q.items ≡ some a
    → cancel_write a q ≡ modify q a mark_cancelled
unfolding cancel_write
cancel_write-modify q id a v e =
    update_known (modify q a mark_cancelled) a (inr (ground (arith, (v.entries id a e).named)))

get_status-cancel :
    (q : PriorityQueue) (id : String) (a : ℕ)
    → IsValid q
    → lookup id q.items ≡ some a
    → (j : String)
    → get_status (modify q a mark_cancelled) j ≡ (
        if str_eq id j
        then some (record (item_to_status (q.cell a)) { status = cancelled })
        else get_status q j)
unfolding get_status get item_to_status
get_status-cancel q id a v e j = elim (Option-cases (lookup j q.items)) [
  | inl n ↦ ground (arith, eq_iff id j)
  | inr (b, g) ↦ ground (arith, eq_iff id j, v.entries j b g, v.entries id a e)
]

module _ (q : PriorityQueue) (id : String) (a : ℕ) (known : lookup id q.items ≡ some a) where
  cancel_check-queued : is_queued (q.cell a).status ≡ true → cancel_check q id ≡ may_cancel a
  unfolding cancel_check get
  cancel_check-queued due = rw (known, cancel_check, get) (rw due)

  cancel_check-other :
      is_queued (q.cell a).status ≡ false → cancel_check q id ≡ not_pending id (q.cell a).status
  unfolding cancel_check get
  cancel_check-other other = rw (known, cancel_check, get) (if_of_false _ _ other)

queued_of_is_queued : (s : Status) → is_queued s ≡ true → s ≡ queued
queued_of_is_queued s h = ground arith

-- On a well-formed queue an uninterrupted `Cancel` succeeds exactly on a queued command: then that
-- command's status reads cancelled, all else in it and every other command unchanged. On an unknown
-- id, or a command in another status, it fails and changes nothing.
pub cancel-CancelSpec :
    (q : PriorityQueue) (id : String) → IsValid q → CancelSpec q id (cancel q id)
unfolding cancel cancel_check get item_to_status
cancel-CancelSpec q id v = elim (Option-cases (lookup id q.items)) [
  | inl n ↦ rw (n, cancel, cancel_check, get) (get_status-unknown q id n, refl)
  | inr (a, e) ↦
      let st = item_to_status (q.cell a) in
      let seen = get_status-known q id a e in
      elim (Bool-cases (is_queued (q.cell a).status)) [
        | inl due ↦
            rw (cancel_check-queued q id a e due, cancel)
              (
                st,
                seen,
                queued_of_is_queued (q.cell a).status due,
                rw (cancel_write-modify q id a v e) (get_status-cancel q id a v e),
              )
        | inr other ↦ rw (cancel_check-other q id a e other, cancel) (st, seen, refl, other, refl)
      ]
]

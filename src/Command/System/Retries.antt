-- ===== src/Command/System/Retries.antt =====
-- How often one command is sent.
use openspace_os_core.Base.{
  ap, Option-cases, ℕ, suc, ◌+◌, ◌-◌, ◌≤◌, ◌<◌, ◌≡◌, pos_part, Bool, true, ◌||◌, Option, none, some,
  List, [], ◌∷◌, arith, leb, ◌==◌, if◌then◌else◌, inl, inr,
}
use openspace_os_core.Bus.{MessageBus}
use openspace_os_core.Command.Item.{CommandItem, is_queued}
use openspace_os_core.Command.Queue.{ok, PriorityQueue, new_priority_queue, alloc, enqueue, id_at}
use openspace_os_core.Command.System.Safe.{IsStored}
use openspace_os_core.Command.Queue.Valid.{enqueue-ok}
use openspace_os_core.Command.Scheduler.{SchedulerConfig, with_defaults}
use openspace_os_core.Command.System.{
  System, Phase, starting, awaiting, backing_off, phase_of, Move, run, new_system,
}
use openspace_os_core.Command.System.Threads.{
  phase_of-cons, phase_of-set_phase, phase_of-finish_thread,
}
use openspace_os_core.Command.System.Change.{
  View, view, final-not-queued, SafeView, Change, keep, check, add, cancels, takes, starts, retries,
  settles, requeues,
}
use openspace_os_core.Command.System.Steps.{new_system-Safe, Safe, Moves, started, run_induction}

-- One, if the label is the item.
abbrev one_if : ℕ → Option ℕ → ℕ
one_if a none = 0
one_if a (some b) = if b == a then 1 else 0

-- How often the sender of the item at `a` publishes `CommandSent` in the moves.
unfoldable pub attempts : ℕ → List Move → ℕ
attempts a [] = 0
attempts a (m ∷ ms) = one_if a (started m) + attempts a ms

-- How often a command with `left` retries left can still be sent; `open_` says that without a
-- sender it is queued or not yet there.
abbrev chances : ℕ → Bool → Option Phase → ℕ
chances left open_ none = if open_ then suc left else 0
chances left open_ (some starting) = suc left
chances left open_ (some awaiting) = left
chances left open_ (some (backing_off d)) = suc left

-- What is left of the retries; an item that is not yet there has them all.
abbrev left_over : ℕ → View → SchedulerConfig → ℕ
left_over a v c =
    if leb v.queue.next a
    then pos_part c.max_retries
    else pos_part c.max_retries - (v.queue.cell a).retry_count

budget : ℕ → View → SchedulerConfig → ℕ
budget a v c =
    chances (left_over a v c) (leb v.queue.next a || is_queued (v.queue.cell a).status)
      (phase_of a v.threads)

stored-allocated :
    {v : View} {c : SchedulerConfig}
    → SafeView v c
    → (a : ℕ) → IsStored v.queue a
    → a < v.queue.next
stored-allocated {v} s a h = (s.valid.entries (id_at v.queue a) a h).allocated

-- The item that `Dequeue` takes has no sender.
queued-free :
    {v : View} {c : SchedulerConfig}
    → SafeView v c
    → (a : ℕ) → is_queued (v.queue.cell a).status ≡ true
    → phase_of a v.threads ≡ none
queued-free {v} s a due = elim (Option-cases (phase_of a v.threads)) [
  | inl n ↦ n
  | inr (p, e) ↦ let held = s.held a (λ n. ground arith) in absurd (ground (arith, held.busy))
]

absent-free :
    {v : View} {c : SchedulerConfig}
    → SafeView v c
    → (a : ℕ) → v.queue.next ≤ a
    → phase_of a v.threads ≡ none
absent-free {v} s a far = elim (Option-cases (phase_of a v.threads)) [
  | inl n ↦ n
  | inr (p, e) ↦
      let held = s.held a (λ n. ground arith) in
      absurd (omega (arith, stored-allocated s a held.stored))
]

add_budget :
    (a : ℕ) (item : CommandItem) (now : ℕ) (q : PriorityQueue) {v : View} {c : SchedulerConfig}
    → SafeView v c
    → item.retry_count ≡ 0
    → enqueue (alloc item v.queue).1 (some (alloc item v.queue).0) now ≡ ok q
    → budget a (record v { queue = q }) c ≤ budget a v c
unfolding budget alloc
add_budget a item now q {v} s zero_retries e =
    let (new, named, made) = enqueue-ok (alloc item v.queue).1 v.queue.next now e in
    rw made (ground (arith, absent-free s a))

-- Every change spends what it sends.
Change-budget :
    (a : ℕ) {v w : View} {c : SchedulerConfig} {l : Option ℕ}
    → SafeView v c
    → Change v c l w
    → one_if a l + budget a w c ≤ budget a v c
unfolding budget
Change-budget a s keep = omega arith
Change-budget a s (check b stored due) = omega arith
Change-budget a s (add item now q zero_retries e) =
    omega (arith, add_budget a item now q s zero_retries e)
Change-budget a {v} s (cancels b rest e) =
    ground (arith, stored-allocated s b (s.cancels b (λ n. ground arith)))
Change-budget a {v} s (takes k b now h best room) = ground (
  arith,
  phase_of-cons b a starting v.threads,
  queued-free s b best.due,
  best.due,
  (s.valid.entries k b h).allocated,
)
Change-budget a {v} s (starts b e) =
    ground (arith, phase_of-set_phase b a awaiting v.threads (λ n. ground arith))
Change-budget a {v} s (retries b msg d e more) = ground (
  arith,
  phase_of-set_phase b a (backing_off d) v.threads (λ n. ground arith),
  stored-allocated s b (s.held b (λ n. ground arith)).stored,
)
Change-budget a {v} s (settles b f p e same count final) = ground (
  arith,
  phase_of-finish_thread b a v.threads s.single,
  final-not-queued (f (v.queue.cell b)) final,
  stored-allocated s b (s.held b (λ n. ground arith)).stored,
  count,
)
Change-budget a {v} s (requeues b d e) = ground (
  arith,
  phase_of-finish_thread b a v.threads s.single,
  stored-allocated s b (s.held b (λ n. ground arith)).stored,
)

module _ {B : Type 0} (b : MessageBus B) where
  -- From a safe state on, a command is sent at most as often as its budget allows.
  attempts-le-budget :
      (a : ℕ) (ms : List Move) (s : System B) {t : System B}
      → Safe s
      → run b ms s ≡ some t
      → attempts a ms ≤ budget a (view s) s.config
  unfolding attempts
  attempts-le-budget a ms s {t} safe e =
      let spent : System B → List Move → Type 0 = λ r left.
        attempts a ms + budget a (view r) r.config ≤ budget a (view s) s.config + attempts a left in
      let keeps : (m : Move) (left : List Move) (r r' : System B)
          → Safe r
          → Moves r (started m) r'
          → spent r (m ∷ left)
          → spent r' left =
        λ m left r r' safe_r moved h.
          omega (arith, Change-budget a safe_r moved.0, ap (budget a (view r')) moved.1) in
      let (_, h) = run_induction b spent keeps ms s safe (omega arith) e in omega arith

  budget-new :
      (config : SchedulerConfig) (bus : B) (a : ℕ)
      → budget a (view (new_system config bus)) (new_system config bus).config
        ≡ suc (pos_part (with_defaults config).max_retries)
  unfolding budget new_system phase_of new_priority_queue
  budget-new config bus a = ground arith

  -- In any run of a new pipeline, a command is sent at most once more than `MaxRetries`.
  pub attempts-le :
      (config : SchedulerConfig) (bus : B) (a : ℕ) (ms : List Move) {t : System B}
      → run b ms (new_system config bus) ≡ some t
      → attempts a ms ≤ suc (pos_part (with_defaults config).max_retries)
  attempts-le config bus a ms e = omega (
    arith,
    attempts-le-budget a ms (new_system config bus) (new_system-Safe config bus) e,
    budget-new config bus a,
  )

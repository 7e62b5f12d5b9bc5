-- ===== src/Command/System/Steps.antt =====
-- From a safe state every move of the pipeline makes one of the changes of `Change`, and so does what
-- a run of moves keeps.
use openspace_os_core.Command.Queue.Valid.{new_priority_queue-IsValid}
use openspace_os_core.Base.{
  ℕ, ◌<◌, ◌≡◌, refl, ℤ, pos, pos_part, String, true, Option, none, some, List, [], ◌∷◌, arith, inl,
  inr, Option-cases, lookup, subst, length, ltb_ℤ, ◌&&◌, if_cases,
}
use openspace_os_core.Bus.{MessageBus}
use openspace_os_core.Command.Item.{Command, CommandItem, is_queued, is_final}
use openspace_os_core.Command.Queue.{
  new_priority_queue, PriorityQueue, modify, alloc, enqueue, Result, ok, err, dequeue, get, update,
}
use openspace_os_core.Command.Queue.Best.{Dequeued, idle, taken, dequeue-Dequeued}
use openspace_os_core.Command.Scheduler.{
  SchedulerConfig, Shared, Outcome, no_adapter, timed_out, send_error, answered, Wake, elapsed,
  stopping, mark_failed, mark_stopped, mark_requeued, mark_acked, retry_or_fail, after_backoff,
  start_send, finish_send, confirm,
}
use openspace_os_core.Command.Pipeline.{
  send, validate, with_id, new_item, enqueued, mark_cancelled, cancel_check, cancel_write,
}
use openspace_os_core.Command.System.{
  new_system, System, Phase, starting, awaiting, backing_off, phase_of, finish_thread, take_call,
  Move, submit, check_cancel, write_cancel, dispatch, start, finish, wake, stop, exit_loop, go_on,
  spawn, submitted, checked, has_slot, start_from, finish_from, wake_from, step, run,
}
use openspace_os_core.Command.System.Safe.{IsStored, update-modify}
use openspace_os_core.Command.System.Change.{
  view, SafeView, Change, keep, check, add, cancels, takes, starts, retries, settles, requeues,
  Change-Safe,
}

-- The invariant of a whole state: see `IsSafe`.
abbrev pub Safe : {B : Type 0} → System B → Type 0
Safe s = SafeView (view s) s.config

-- The predicate holds of the value, if there is one.
abbrev pub IfSome : {A : Type 0} → (A → Type 0) → Option A → Type 0
IfSome P none = Unit
IfSome P (some x) = P x

-- A change of the view under the configuration, which no move touches.
abbrev pub Moves : {B : Type 0} → System B → Option ℕ → System B → Type 0
Moves s l t = Change (view s) s.config l (view t) × (t.config ≡ s.config)

-- The item whose sender publishes `CommandSent` in the move.
abbrev pub started : Move → Option ℕ
started (start a event_id now) = some a
started _ = none

module _ {B : Type 0} (s : System B) (m : Shared B) (same : m.queue ≡ s.shared.queue)
    (safe : Safe s) (a : ℕ) where
  -- A sender's write and its `Update` settle the command.
  settle-Moves :
      (f : CommandItem → CommandItem) (p : Phase)
      → phase_of a s.threads ≡ some p
      → (f (m.queue.cell a)).command ≡ (m.queue.cell a).command
      → (f (m.queue.cell a)).retry_count ≡ (m.queue.cell a).retry_count
      → is_final (f (m.queue.cell a)).status ≡ true
      → Change (view s) s.config none (record {
        queue = update (modify m.queue a f) a;
        threads = finish_thread a s.threads;
        cancelling = s.cancelling;
      })
  settle-Moves f p e keeps count final =
      let held = safe.held a (λ n. ground arith) in
      rw (update-modify m.queue a f keeps (rw same held.stored))
        (rw same (settles a f p e (rw same at keeps) (rw same at count) (rw same at final)))

  retry_or_fail-Moves :
      (msg : String)
      → phase_of a s.threads ≡ some awaiting
      → Moves s none (go_on a s (retry_or_fail s.config a msg m))
  unfolding retry_or_fail
  retry_or_fail-Moves msg e =
      if_cases (λ r. Moves s none (go_on a s r))
        (ltb_ℤ (pos (m.queue.cell a).retry_count) s.config.max_retries)
        (λ more. (rw same (retries a msg _ e (rw same at (lt_parts more))), refl))
        (λ out. (settle-Moves (mark_failed msg) awaiting e refl refl refl, refl))
    where
      lt_parts :
          ltb_ℤ (pos (m.queue.cell a).retry_count) s.config.max_retries ≡ true
          → (m.queue.cell a).retry_count < pos_part s.config.max_retries
      lt_parts h = ground arith

module _ {B : Type 0} (b : MessageBus B) (s : System B) (safe : Safe s) where
  finish-Moves :
      (a : ℕ) (o : Outcome) (event_id : String) (now : ℕ)
      → phase_of a s.threads ≡ some awaiting
      → Moves s none (go_on a s (finish_send b s.config event_id now a o s.shared))
  unfolding finish_send confirm
  finish-Moves a no_adapter event_id now e = retry_or_fail-Moves s s.shared refl safe a _ e
  finish-Moves a timed_out event_id now e = retry_or_fail-Moves s _ refl safe a _ e
  finish-Moves a (send_error msg us) event_id now e = retry_or_fail-Moves s _ refl safe a msg e
  finish-Moves a (answered ack us) event_id now e =
      if_cases (λ r. Moves s none (go_on a s r)) ack.success
        (λ good. (
          settle-Moves s s.shared refl safe a (mark_acked now ack) awaiting e refl refl refl,
          refl,
        ))
        (λ bad. retry_or_fail-Moves s _ refl safe a ack.message e)

  finish_from-Moves :
      (a : ℕ) (o : Outcome) (event_id : String) (now : ℕ) (p : Option Phase)
      → phase_of a s.threads ≡ p
      → IfSome (Moves s none) (finish_from b s a o event_id now p)
  finish_from-Moves a o event_id now none e = tt
  finish_from-Moves a o event_id now (some starting) e = tt
  finish_from-Moves a o event_id now (some awaiting) e = finish-Moves a o event_id now e
  finish_from-Moves a o event_id now (some (backing_off d)) e = tt

  start_from-Moves :
      (a : ℕ) (event_id : String) (now : ℕ) (p : Option Phase)
      → phase_of a s.threads ≡ p
      → IfSome (Moves s (some a)) (start_from b s a event_id now p)
  unfolding start_send
  start_from-Moves a event_id now none e = tt
  start_from-Moves a event_id now (some starting) e = (starts a e, refl)
  start_from-Moves a event_id now (some awaiting) e = tt
  start_from-Moves a event_id now (some (backing_off d)) e = tt

  -- After its backoff a sender queues its item again, or fails it when the scheduler stops.
  wake_from-Moves :
      (a : ℕ) (w : Wake) (p : Option Phase)
      → phase_of a s.threads ≡ p
      → IfSome (Moves s none) (wake_from b s a w p)
  unfolding after_backoff
  wake_from-Moves a w none e = tt
  wake_from-Moves a w (some starting) e = tt
  wake_from-Moves a w (some awaiting) e = tt
  wake_from-Moves a stopping (some (backing_off d)) e =
      (settle-Moves s s.shared refl safe a mark_stopped (backing_off d) e refl refl refl, refl)
  wake_from-Moves a elapsed (some (backing_off d)) e =
      let held = safe.held a (λ n. ground arith) in
      (rw (update-modify s.shared.queue a mark_requeued refl held.stored) (requeues a d e), refl)

  dispatch-Moves :
      (now : ℕ) (r : Option ℕ × PriorityQueue)
      → length s.threads < pos_part s.config.max_concurrent
      → Dequeued s.shared.queue now r
      → Moves s none (spawn s r)
  dispatch-Moves now r room (idle h) = (keep, refl)
  dispatch-Moves now r room (taken k a h best) = (takes k a now h best room, refl)

  submit-Moves :
      (uuid : String) (now : ℕ) (cmd : Command) (priority : ℤ)
      → Moves s none (submitted s (send true uuid now cmd priority s.shared.queue))
  unfolding send
  submit-Moves uuid now cmd priority = elim (Option-cases (validate (some c))) [
    | inr (e, h) ↦ rw (h, send) (keep, refl)
    | inl h ↦ rw (h, send) (stores (enqueue (alloc item q).1 (some (alloc item q).0) now) refl)
  ]
    where
      q : PriorityQueue
      q = s.shared.queue

      c : Command
      c = with_id uuid cmd

      item : CommandItem
      item = new_item c priority now

      stores :
          (r : Result PriorityQueue)
          → enqueue (alloc item q).1 (some (alloc item q).0) now ≡ r
          → Moves s none (submitted s (enqueued r))
      stores (ok q') e = (add item now q' refl e, refl)
      stores (err x) e = (keep, refl)

  check-Moves : (id : String) → Moves s none (checked s (cancel_check s.shared.queue id))
  unfolding cancel_check get
  check-Moves id = elim (Option-cases (lookup id s.shared.queue.items)) [
    | inl n ↦ rw (n, cancel_check, get) (keep, refl)
    | inr (a, e) ↦
        let stored : IsStored s.shared.queue a =
          ground (arith, (safe.valid.entries id a e).named) in
        rw (e, cancel_check, get)
          (if_cases (λ r. Moves s none (checked s r)) (is_queued (s.shared.queue.cell a).status)
            (λ due. (check a stored due, refl)) (λ other. (keep, refl)))
  ]

  -- From a safe state, every move makes one of the changes.
  pub step-Moves : (m : Move) → IfSome (Moves s (started m)) (step b m s)
  unfolding step cancel_write
  step-Moves (submit uuid now cmd priority) = submit-Moves uuid now cmd priority
  step-Moves (check_cancel id) = check-Moves id
  step-Moves (write_cancel a) = elim (Option-cases (take_call a s.cancelling)) [
    | inl n ↦ rw (n, step) tt
    | inr (rest, e) ↦
        let stored = safe.cancels a (λ n. ground arith) in
        rw (e, step)
          (rw (update-modify s.shared.queue a mark_cancelled refl stored) (cancels a rest e), refl)
  ]
  step-Moves (dispatch now) =
      if_cases (IfSome (Moves s none)) (s.running && has_slot s)
        (λ go.
          dispatch-Moves now (dequeue s.shared.queue now) (ground arith)
            (dequeue-Dequeued s.shared.queue now safe.valid))
        (λ no_slot. tt)
  step-Moves (start a event_id now) = start_from-Moves a event_id now (phase_of a s.threads) refl
  step-Moves (finish a o event_id now) =
      finish_from-Moves a o event_id now (phase_of a s.threads) refl
  step-Moves (wake a elapsed) = wake_from-Moves a elapsed (phase_of a s.threads) refl
  step-Moves (wake a stopping) =
      if_cases (IfSome (Moves s none)) s.stopped
        (λ down. wake_from-Moves a stopping (phase_of a s.threads) refl) (λ up. tt)
  step-Moves stop = (keep, refl)
  step-Moves exit_loop =
      if_cases (IfSome (Moves s none)) s.stopped (λ down. (keep, refl)) (λ up. tt)

module _ {B : Type 0} (b : MessageBus B) where
  -- A property of states that every change keeps is kept by runs.
  pub run_induction :
      (P : System B → List Move → Type 0)
      → ((m : Move) (ms : List Move) (s t : System B)
          → Safe s
          → Moves s (started m) t
          → P s (m ∷ ms)
          → P t ms)
      → (ms : List Move) (s : System B) {t : System B} → Safe s
      → P s ms
      → run b ms s ≡ some t
      → Safe t × P t []
  unfolding run
  run_induction P keeps [] s {t} safe h e =
      let same : s ≡ t = ground arith in (subst Safe same safe, subst (λ r. P r []) same h)
  run_induction P keeps (m ∷ ms) s {t} safe h e =
      go (step b m s) (step-Moves b s safe m) e (λ s'. run_induction P keeps ms s' {t = t})
    where
      go :
          (r : Option (System B))
          → IfSome (Moves s (started m)) r
          → elim r [ none ↦ none | some s' ↦ run b ms s' ] ≡ some t
          → ((s' : System B) → Safe s' → P s' ms → run b ms s' ≡ some t → Safe t × P t [])
          → Safe t × P t []
      go none moves g rest = absurd (ground arith)
      go (some s') (change, config) g rest =
          rest s' (rw config (Change-Safe safe change)) (keeps m ms s s' safe (change, config) h) g

  -- From a state that meets the invariant, whatever the interleaving of dispatcher, senders,
  -- submissions, cancels and stop, the queue stays well formed, no item has two senders, an item
  -- with a sender is stored and not queued, at most `MaxConcurrent` senders run, and no item has
  -- been retried more than `MaxRetries` times.
  pub run-Safe :
      (ms : List Move) (s : System B) {t : System B} → Safe s → run b ms s ≡ some t → Safe t
  run-Safe ms s safe e = (run_induction (λ _ _. Unit {0}) (λ _ _ _ _ _ _ _. tt) ms s safe tt e).0

-- A new pipeline meets the invariant, for every configuration.
pub new_system-Safe :
    {B : Type 0} (config : SchedulerConfig) (bus : B) → Safe (new_system config bus)
unfolding new_system phase_of take_call new_priority_queue
new_system-Safe config bus = record {
  valid = new_priority_queue-IsValid;
  single = tt;
  held = λ a h. absurd (h refl);
  slots = omega arith;
  retries = λ a. omega arith;
  cancels = λ a h. absurd (h refl);
}

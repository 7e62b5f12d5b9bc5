-- ===== src/Command/System.antt =====
-- The command pipeline as a whole: the dispatch loop, its senders and the callers of the API, run
-- as any interleaving of their steps (internal/pipeline/command/scheduler.go and pipeline.go). A
-- run is a list of moves; a move that its thread cannot make gives `none`.
pub mod Threads
pub mod Safe
pub mod Change
pub mod Steps
pub mod Retries
pub mod Settled
pub mod Race
pub mod Tests
use openspace_os_core.Base.{
  ℕ, suc, ◌+◌, ℤ, pos_part, String, Bool, true, false, not, ◌&&◌, ◌||◌, Option, none, some, List,
  [], ◌∷◌, if◌then◌else◌, ltb, ◌==◌, length,
}
use openspace_os_core.Bus.{MessageBus}
use openspace_os_core.Command.Item.{Command}
use openspace_os_core.Command.Queue.{PriorityQueue, dequeue, new_priority_queue}
use openspace_os_core.Command.Metrics.{zero_metrics}
use openspace_os_core.Command.Scheduler.{
  SchedulerConfig, with_defaults, Shared, Outcome, Wake, elapsed, stopping, start_send, finish_send,
  after_backoff,
}
use openspace_os_core.Command.Pipeline.{
  Sent, accepted, refused, send, CancelCheck, may_cancel, not_found, not_pending, cancel_check,
  cancel_write,
}

-- Where a sender stands: before `CommandSent`, waiting for the adapter, or waiting out a backoff.
pub data Phase : Type 0 where
  starting awaiting : Phase
  backing_off : ℤ → Phase

pub record System (B : Type 0) : Type 0 where
  pub shared : Shared B
  pub config : SchedulerConfig
  -- The senders by the item that each holds. Each also holds a slot of the semaphore.
  pub threads : List (ℕ × Phase)
  -- The calls of `Cancel` that have read a queued status and not yet written.
  pub cancelling : List ℕ
  pub stopped : Bool
  -- The dispatch loop has not returned.
  pub running : Bool

unfoldable pub phase_of : ℕ → List (ℕ × Phase) → Option Phase
phase_of a [] = none
phase_of a ((b, p) ∷ ts) = if b == a then some p else phase_of a ts

unfoldable pub set_phase : ℕ → Phase → List (ℕ × Phase) → List (ℕ × Phase)
set_phase a p [] = []
set_phase a p ((b, r) ∷ ts) = if b == a then (b, p) ∷ ts else (b, r) ∷ set_phase a p ts

unfoldable pub finish_thread : ℕ → List (ℕ × Phase) → List (ℕ × Phase)
finish_thread a [] = []
finish_thread a ((b, r) ∷ ts) = if b == a then ts else (b, r) ∷ finish_thread a ts

-- The first call of `Cancel` that holds `a`, taken out.
unfoldable pub take_call : ℕ → List ℕ → Option (List ℕ)
take_call a [] = none
take_call a (b ∷ bs) =
    if b == a then some bs else elim (take_call a bs) [ none ↦ none | some cs ↦ some (b ∷ cs) ]

pub data Move : Type 0 where
  submit : (uuid : String) (now : ℕ) (cmd : Command) (priority : ℤ) → Move
  check_cancel : (id : String) → Move
  write_cancel : (a : ℕ) → Move
  dispatch : (now : ℕ) → Move
  start : (a : ℕ) (event_id : String) (now : ℕ) → Move
  finish : (a : ℕ) (outcome : Outcome) (event_id : String) (now : ℕ) → Move
  wake : (a : ℕ) (by : Wake) → Move
  stop : Move
  exit_loop : Move

unfoldable pub new_system : {B : Type 0} → SchedulerConfig → B → System B
new_system config bus = record {
  shared = record { queue = new_priority_queue; metrics = zero_metrics; bus = bus };
  config = with_defaults config;
  threads = [];
  cancelling = [];
  stopped = false;
  running = true;
}

module _ {B : Type 0} where
  abbrev pub set_queue : PriorityQueue → System B → System B
  set_queue q s = record s { shared = record s.shared { queue = q } }

  -- What a sender does after its wait for the adapter: wait again, or return.
  abbrev pub go_on : ℕ → System B → Shared B × Option ℤ → System B
  go_on a s (shared, none) = record s { shared = shared; threads = finish_thread a s.threads }
  go_on a s (shared, some d) = record s {
    shared = shared;
    threads = set_phase a (backing_off d) s.threads;
  }

  -- What the dispatch loop does with the result of `Dequeue`.
  abbrev pub spawn : System B → Option ℕ × PriorityQueue → System B
  spawn s (none, q) = set_queue q s
  spawn s (some a, q) = record (set_queue q s) { threads = (a, starting) ∷ s.threads }

  abbrev pub submitted : System B → Sent → System B
  submitted s (accepted q) = set_queue q s
  submitted s (refused e) = s

  abbrev pub checked : System B → CancelCheck → System B
  checked s (may_cancel a) = record s { cancelling = a ∷ s.cancelling }
  checked s (not_found k) = s
  checked s (not_pending k st) = s

  -- A free slot of the semaphore, whose capacity is `MaxConcurrent`.
  abbrev pub has_slot : System B → Bool
  has_slot s = ltb (length s.threads) (pos_part s.config.max_concurrent)

module _ {B : Type 0} (b : MessageBus B) where
  abbrev pub start_from : System B → ℕ → String → ℕ → Option Phase → Option (System B)
  start_from s a event_id now (some starting) = some (record s {
    shared = start_send b event_id now a s.shared;
    threads = set_phase a awaiting s.threads;
  })
  start_from s a event_id now _ = none

  abbrev pub finish_from : System B → ℕ → Outcome → String → ℕ → Option Phase → Option (System B)
  finish_from s a o event_id now (some awaiting) =
      some (go_on a s (finish_send b s.config event_id now a o s.shared))
  finish_from s a o event_id now _ = none

  abbrev pub wake_from : System B → ℕ → Wake → Option Phase → Option (System B)
  wake_from s a w (some (backing_off d)) =
      some (record s { shared = after_backoff w a s.shared; threads = finish_thread a s.threads })
  wake_from s a w _ = none

  unfoldable pub step : Move → System B → Option (System B)
  step (submit uuid now cmd priority) s =
      some (submitted s (send true uuid now cmd priority s.shared.queue))
  step (check_cancel id) s = some (checked s (cancel_check s.shared.queue id))
  step (write_cancel a) s = elim (take_call a s.cancelling) [
    | none ↦ none
    | some rest ↦ some (record (set_queue (cancel_write a s.shared.queue) s) { cancelling = rest })
  ]
  step (dispatch now) s =
      if s.running && has_slot s then some (spawn s (dequeue s.shared.queue now)) else none
  step (start a event_id now) s = start_from s a event_id now (phase_of a s.threads)
  step (finish a o event_id now) s = finish_from s a o event_id now (phase_of a s.threads)
  step (wake a elapsed) s = wake_from s a elapsed (phase_of a s.threads)
  step (wake a stopping) s =
      if s.stopped then wake_from s a stopping (phase_of a s.threads) else none
  step stop s = some (record s { stopped = true })
  step exit_loop s = if s.stopped then some (record s { running = false }) else none

  unfoldable pub run : List Move → System B → Option (System B)
  run [] s = some s
  run (m ∷ ms) s = elim (step m s) [ none ↦ none | some s' ↦ run ms s' ]

-- ===== src/Command/System/Change.antt =====
-- What one move can do to the queue, the senders and the pending cancels: the step relation that
-- the executable `step` follows. The label is the item whose sender publishes `CommandSent`.
use openspace_os_core.Base.{
  false, ℕ, ◌<◌, ◌≡◌, refl, ◌≢◌, ℤ, pos_part, String, true, Option, none, some, List, ◌∷◌, arith,
  lookup, length, Option-cases, inl, inr,
}
use openspace_os_core.Command.Item.{CommandItem, is_queued, is_final}
use openspace_os_core.Command.Queue.{PriorityQueue, modify, mark_sending, alloc, enqueue, ok}
use openspace_os_core.Command.Queue.Best.{IsBest}
use openspace_os_core.Command.Scheduler.{SchedulerConfig, mark_retry, mark_requeued}
use openspace_os_core.Command.Pipeline.{mark_cancelled}
use openspace_os_core.Command.System.{
  System, Phase, starting, awaiting, backing_off, phase_of, set_phase, finish_thread, take_call,
}
use openspace_os_core.Command.System.Threads.{phase_of-finish_thread}
use openspace_os_core.Command.System.Safe.{
  IsStored, IsSafe, modify-IsSafe, finish_thread-IsSafe, set_phase-IsSafe, spawn-IsSafe,
  check-IsSafe, take_call-IsSafe, enqueue-IsSafe,
}

pub record View : Type 0 where
  pub queue : PriorityQueue
  pub threads : List (ℕ × Phase)
  pub cancelling : List ℕ

abbrev pub view : {B : Type 0} → System B → View
view s = record { queue = s.shared.queue; threads = s.threads; cancelling = s.cancelling }

pub data Change (v : View) (c : SchedulerConfig) : Option ℕ → View → Type 0 where
  keep : Change v c none v
  check :
      (a : ℕ)
      → IsStored v.queue a
      → is_queued (v.queue.cell a).status ≡ true
      → Change v c none (record v { cancelling = a ∷ v.cancelling })
  add :
      (item : CommandItem) (now : ℕ) (q : PriorityQueue)
      → item.retry_count ≡ 0
      → enqueue (alloc item v.queue).1 (some (alloc item v.queue).0) now ≡ ok q
      → Change v c none (record v { queue = q })
  cancels :
      (a : ℕ) (rest : List ℕ)
      → take_call a v.cancelling ≡ some rest
      → Change v c none (record v { queue = modify v.queue a mark_cancelled; cancelling = rest })
  takes :
      (k : String) (a now : ℕ)
      → lookup k v.queue.items ≡ some a
      → IsBest v.queue.cell v.queue.items a
      → length v.threads < pos_part c.max_concurrent
      → Change v c none (record v {
        queue = modify v.queue a (mark_sending now);
        threads = (a, starting) ∷ v.threads;
      })
  starts :
      (a : ℕ)
      → phase_of a v.threads ≡ some starting
      → Change v c (some a) (record v { threads = set_phase a awaiting v.threads })
  retries :
      (a : ℕ) (msg : String) (d : ℤ)
      → phase_of a v.threads ≡ some awaiting
      → (v.queue.cell a).retry_count < pos_part c.max_retries
      → Change v c none (record v {
        queue = modify v.queue a (mark_retry msg);
        threads = set_phase a (backing_off d) v.threads;
      })
  settles :
      (a : ℕ) (f : CommandItem → CommandItem) (p : Phase)
      → phase_of a v.threads ≡ some p
      → (f (v.queue.cell a)).command ≡ (v.queue.cell a).command
      → (f (v.queue.cell a)).retry_count ≡ (v.queue.cell a).retry_count
      → is_final (f (v.queue.cell a)).status ≡ true
      → Change v c none
          (record v { queue = modify v.queue a f; threads = finish_thread a v.threads })
  requeues :
      (a : ℕ) (d : ℤ)
      → phase_of a v.threads ≡ some (backing_off d)
      → Change v c none
          (record v { queue = modify v.queue a mark_requeued; threads = finish_thread a v.threads })

abbrev pub SafeView : View → SchedulerConfig → Type 0
SafeView v c = IsSafe v.queue v.threads v.cancelling c

pub final-not-queued : (i : CommandItem) → is_final i.status ≡ true → is_queued i.status ≡ false
final-not-queued i h = ground arith

-- Every change keeps the invariant.
pub Change-Safe :
    {v w : View} {c : SchedulerConfig} {l : Option ℕ} → SafeView v c → Change v c l w → SafeView w c
Change-Safe s keep = s
Change-Safe s (check a stored due) = check-IsSafe s a stored
Change-Safe s (add item now q zero_retries e) = enqueue-IsSafe s item now zero_retries e
Change-Safe s (cancels a rest e) =
    modify-IsSafe (take_call-IsSafe s a e) a mark_cancelled refl (λ _. refl) (s.retries a)
Change-Safe {v} s (takes k a now h best room) =
    let free : phase_of a v.threads ≡ none = elim (Option-cases (phase_of a v.threads)) [
      | inl n ↦ n
      | inr (p, e) ↦
          let held = s.held a (λ n. ground arith) in absurd (ground (arith, held.busy, best.due))
    ] in
    let stored : IsStored v.queue a = ground (arith, (s.valid.entries k a h).named) in
    spawn-IsSafe (modify-IsSafe s a (mark_sending now) refl (λ n. refl) (s.retries a)) a free
      (record { stored = ground (arith, stored); busy = ground arith }) room
Change-Safe s (starts a e) = set_phase-IsSafe s a awaiting (λ n. ground arith)
Change-Safe {v} s (retries a msg d e more) =
    let there : phase_of a v.threads ≢ none = λ n. ground arith in
    set_phase-IsSafe
      (modify-IsSafe s a (mark_retry msg) refl (λ _. (s.held a there).busy) (omega arith)) a
      (backing_off d) there
Change-Safe {v} s (settles a f p e same count final) =
    finish_thread-IsSafe
      (modify-IsSafe s a f same (λ _. final-not-queued (f (v.queue.cell a)) final)
        (omega (arith, s.retries a)))
      a
Change-Safe {v} s (requeues a d e) =
    let gone : phase_of a (finish_thread a v.threads) ≡ none =
      ground (arith, phase_of-finish_thread a a v.threads s.single) in
    modify-IsSafe (finish_thread-IsSafe s a) a mark_requeued refl (λ n. absurd (n gone))
      (s.retries a)

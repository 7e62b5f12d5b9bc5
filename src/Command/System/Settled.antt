-- ===== src/Command/System/Settled.antt =====
-- Commands in a final status, over the runs of internal/pipeline/command.
use openspace_os_core.Command.Pipeline.{mark_cancelled}
use openspace_os_core.Base.{
  ℕ, ◌<◌, ◌≡◌, ◌≢◌, true, Option, none, some, List, arith, Option-cases, inl, inr,
}
use openspace_os_core.Bus.{MessageBus}
use openspace_os_core.Command.Item.{CommandItem, is_final}
use openspace_os_core.Command.Queue.{mark_sending, PriorityQueue, modify, alloc, enqueue, ok}
use openspace_os_core.Command.Queue.Valid.{enqueue-ok}
use openspace_os_core.Command.Scheduler.{mark_requeued, mark_retry, SchedulerConfig}
use openspace_os_core.Command.System.{
  System, starting, awaiting, backing_off, phase_of, take_call, Move, run,
}
use openspace_os_core.Command.System.Threads.{
  phase_of-set_phase, phase_of-finish_thread, phase_of-cons, take_call_left, take_call-cons,
}
use openspace_os_core.Command.System.Change.{
  View, view, SafeView, Change, keep, check, add, cancels, takes, starts, retries, settles,
  requeues, final-not-queued,
}
use openspace_os_core.Command.System.Steps.{Safe, run_induction}

-- The item at `a` is `i`, in a final status, with no sender and no call of `Cancel` about to write.
pub record IsSettled (v : View) (a : ℕ) (i : CommandItem) : Type 0 where
  pub item : v.queue.cell a ≡ i
  pub final : is_final i.status ≡ true
  pub present : a < v.queue.next
  pub free : phase_of a v.threads ≡ none
  pub uncancelled : take_call a v.cancelling ≡ none

IsSettled-add :
    (a : ℕ) (i : CommandItem) (item : CommandItem) (now : ℕ) (q : PriorityQueue) {v : View}
    → IsSettled v a i
    → enqueue (alloc item v.queue).1 (some (alloc item v.queue).0) now ≡ ok q
    → IsSettled (record v { queue = q }) a i
unfolding alloc
IsSettled-add a i item now q {v} h e =
    let (new, named, made) = enqueue-ok (alloc item v.queue).1 v.queue.next now e in
    rw made (record {
      item = ground (arith, h.item, h.present);
      final = h.final;
      present = omega (arith, h.present);
      free = h.free;
      uncancelled = h.uncancelled;
    })

-- Writing to another item.
IsSettled-modify :
    (a : ℕ) (i : CommandItem) (b : ℕ) (f : CommandItem → CommandItem) {v : View}
    → IsSettled v a i
    → b ≢ a
    → IsSettled (record v { queue = modify v.queue b f }) a i
IsSettled-modify a i b f h other = record {
  item = ground (arith, h.item);
  final = h.final;
  present = h.present;
  free = h.free;
  uncancelled = h.uncancelled;
}

Change-IsSettled :
    (a : ℕ) (i : CommandItem) {v w : View} {c : SchedulerConfig} {l : Option ℕ}
    → SafeView v c
    → Change v c l w
    → IsSettled v a i
    → IsSettled w a i
Change-IsSettled a i s keep h = h
Change-IsSettled a i {v} s (check b stored due) h =
    let other : b ≢ a = λ e. ground (arith, h.item, final-not-queued i h.final) in
    record {
      item = h.item;
      final = h.final;
      present = h.present;
      free = h.free;
      uncancelled = ground (arith, take_call-cons b a v.cancelling, h.uncancelled);
    }
Change-IsSettled a i s (add item now q zero_retries e) h = IsSettled-add a i item now q h e
Change-IsSettled a i {v} s (cancels b rest e) h =
    let other : b ≢ a = λ g. ground (arith, h.uncancelled) in
    let k = IsSettled-modify a i b mark_cancelled h other in
    record {
      item = k.item;
      final = k.final;
      present = k.present;
      free = k.free;
      uncancelled = elim (Option-cases (take_call a rest)) [
        | inl n ↦ n
        | inr (x, g) ↦ absurd (take_call_left b a v.cancelling e (λ n. ground arith) h.uncancelled)
      ];
    }
Change-IsSettled a i {v} s (takes k b now g best room) h =
    let other : b ≢ a = λ e. ground (arith, h.item, final-not-queued i h.final, best.due) in
    let m = IsSettled-modify a i b (mark_sending now) h other in
    record {
      item = m.item;
      final = m.final;
      present = m.present;
      free = ground (arith, phase_of-cons b a starting v.threads, h.free);
      uncancelled = m.uncancelled;
    }
Change-IsSettled a i {v} s (starts b e) h = record {
  item = h.item;
  final = h.final;
  present = h.present;
  free = ground (arith, phase_of-set_phase b a awaiting v.threads (λ n. ground arith), h.free);
  uncancelled = h.uncancelled;
}
Change-IsSettled a i {v} s (retries b msg d e more) h =
    let other : b ≢ a = λ g. ground (arith, h.free) in
    let m = IsSettled-modify a i b (mark_retry msg) h other in
    record {
      item = m.item;
      final = m.final;
      present = m.present;
      free =
          ground
            (arith, phase_of-set_phase b a (backing_off d) v.threads (λ n. ground arith), h.free);
      uncancelled = m.uncancelled;
    }
Change-IsSettled a i {v} s (settles b f p e same count final) h =
    let other : b ≢ a = λ g. ground (arith, h.free) in
    let m = IsSettled-modify a i b f h other in
    record {
      item = m.item;
      final = m.final;
      present = m.present;
      free = ground (arith, phase_of-finish_thread b a v.threads s.single, h.free);
      uncancelled = m.uncancelled;
    }
Change-IsSettled a i {v} s (requeues b d e) h =
    let other : b ≢ a = λ g. ground (arith, h.free) in
    let m = IsSettled-modify a i b mark_requeued h other in
    record {
      item = m.item;
      final = m.final;
      present = m.present;
      free = ground (arith, phase_of-finish_thread b a v.threads s.single, h.free);
      uncancelled = m.uncancelled;
    }

-- From a state that meets the invariant: once a command is acknowledged, failed or cancelled, with
-- no sender left on it and no call of `Cancel` about to write to it, no run changes anything of its
-- item.
pub run-IsSettled :
    {B : Type 0} (b : MessageBus B) (a : ℕ) (i : CommandItem) (ms : List Move) (s : System B)
    {t : System B}
    → Safe s
    → IsSettled (view s) a i
    → run b ms s ≡ some t
    → IsSettled (view t) a i
run-IsSettled b a i ms s safe h e =
    (run_induction b (λ r _. IsSettled (view r) a i)
      (λ m left r r' safe_r moved. Change-IsSettled a i safe_r moved.0) ms s safe h e).1

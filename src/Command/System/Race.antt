-- ===== src/Command/System/Race.antt =====
-- `Cancel` of internal/pipeline/command/pipeline.go against the dispatch loop: the two halves of a
-- call with the loop in between.
use openspace_os_core.Base.{
  ℤ, if_cases, ap, ==_refl, subst, ℕ, ◌≡◌, refl, ◌∙◌, String, true, ◌&&◌, Option, some, List, [],
  ◌∷◌, arith, lookup,
}
use openspace_os_core.Bus.{MessageBus}
use openspace_os_core.Command.Item.{Ack, acked, cancelled, is_queued}
use openspace_os_core.Command.Queue.{PriorityQueue, modify, mark_sending, dequeue, get}
use openspace_os_core.Command.Queue.Valid.{cell-update}
use openspace_os_core.Command.Queue.Best.{Dequeued, idle, taken, dequeue-Dequeued}
use openspace_os_core.Command.Scheduler.{
  mark_acked, SchedulerConfig, Shared, answered, start_send, finish_send, confirm,
}
use openspace_os_core.Command.Pipeline.{cancel_check, cancel_write, mark_cancelled}
use openspace_os_core.Command.System.{
  System, Move, check_cancel, dispatch, start, write_cancel, finish, step, run, has_slot, set_queue,
  starting, awaiting, phase_of, set_phase, finish_thread, take_call,
}
use openspace_os_core.Command.System.Safe.{IsStored, update-modify}
use openspace_os_core.Command.System.Steps.{Safe}

dequeue-some :
    (q : PriorityQueue) (now a : ℕ) (r : Option ℕ × PriorityQueue)
    → Dequeued q now r
    → r.0 ≡ some a
    → (r ≡ (some a, modify q a (mark_sending now))) × (is_queued (q.cell a).status ≡ true)
dequeue-some q now a r (idle h) e = absurd (ground arith)
dequeue-some q now a r (taken k b h best) e =
    let same : b ≡ a = ground arith in
    (ground arith, subst (λ x. is_queued (q.cell x).status ≡ true) same best.due)

take_call_head : (a : ℕ) (cs : List ℕ) → take_call a (a ∷ cs) ≡ some cs
unfolding take_call
take_call_head a cs = rw (==_refl a)

module _ {B : Type 0} (b : MessageBus B) where
  run-cons :
      (m : Move) (ms : List Move) (s s' : System B)
      → step b m s ≡ some s'
      → run b (m ∷ ms) s ≡ run b ms s'
  unfolding run
  run-cons m ms s s' e = rw (e, run)

  run-nil : (s : System B) → run b [] s ≡ some s
  unfolding run
  run-nil s = refl

  step-write_cancel :
      (s : System B) (a : ℕ) (rest : List ℕ)
      → take_call a s.cancelling ≡ some rest
      → IsStored s.shared.queue a
      → step b (write_cancel a) s
        ≡ some (record (set_queue (modify s.shared.queue a mark_cancelled) s) { cancelling = rest })
  unfolding step cancel_write
  step-write_cancel s a rest e stored =
      rw (e, step) (rw (update-modify s.shared.queue a mark_cancelled refl stored))

  confirm-acked :
      (event_id : String) (now a : ℕ) (ack : Ack) (s : Shared B)
      → ((confirm b event_id now a ack s).queue.cell a).status ≡ acked
  unfolding confirm
  confirm-acked event_id now a ack s =
      ap (λ f. (f a).status) (cell-update (modify s.queue a (mark_acked now ack)) a)
      ∙ rw (==_refl a)

  finish_send-acked :
      (config : SchedulerConfig) (event_id : String) (now a : ℕ) (ack : Ack) (us : ℕ) (s : Shared B)
      → ack.success ≡ true
      → ((finish_send b config event_id now a (answered ack us) s).0.queue.cell a).status ≡ acked
  unfolding finish_send
  finish_send-acked config event_id now a ack us s good =
      if_cases {A = Shared B × Option ℤ} (λ r. (r.0.queue.cell a).status ≡ acked) ack.success
        (λ _. confirm-acked event_id now a ack _) (λ bad. absurd (ground arith))

  module _ (s : System B) (safe : Safe s) (id : String) (a : ℕ) (now : ℕ)
      (known : lookup id s.shared.queue.items ≡ some a)
      (best : (dequeue s.shared.queue now).0 ≡ some a) (slot : s.running && has_slot s ≡ true) where
    -- After the call of `Cancel` has read the status.
    checked_state : System B
    checked_state = record s { cancelling = a ∷ s.cancelling }

    -- After the dispatch loop has taken the command.
    taken_state : System B
    taken_state = record (set_queue (modify s.shared.queue a (mark_sending now)) checked_state) {
      threads = (a, starting) ∷ s.threads;
    }

    due :
        (dequeue s.shared.queue now ≡ (some a, modify s.shared.queue a (mark_sending now)))
        × (is_queued (s.shared.queue.cell a).status ≡ true)
    due = dequeue-some s.shared.queue now a _ (dequeue-Dequeued s.shared.queue now safe.valid) best

    check_step : step b (check_cancel id) s ≡ some checked_state
    unfolding step cancel_check get checked_state
    check_step = rw (known, cancel_check, get) (rw due.1)

    loop_step : step b (dispatch now) checked_state ≡ some taken_state
    unfolding step checked_state taken_state
    loop_step = rw slot (rw due.0)

    module _ (start_id ack_id : String) (sent_at acked_at : ℕ) (ack : Ack) (us : ℕ)
        (good : ack.success ≡ true) where
      -- After its sender has published `CommandSent` and called the adapter.
      started_state : System B
      started_state = record taken_state {
        shared = start_send b start_id sent_at a taken_state.shared;
        threads = (a, awaiting) ∷ s.threads;
      }

      -- After the call of `Cancel` has written.
      cancelled_state : System B
      cancelled_state =
          record (set_queue (modify started_state.shared.queue a mark_cancelled) started_state) {
            cancelling = s.cancelling;
          }

      -- After the adapter's acknowledgement.
      acked_state : System B
      acked_state = record cancelled_state {
        shared =
            (finish_send b s.config ack_id acked_at a (answered ack us) cancelled_state.shared).0;
        threads = s.threads;
      }

      stored : IsStored s.shared.queue a
      stored = ground (arith, (safe.valid.entries id a known).named)

      start_step : step b (start a start_id sent_at) taken_state ≡ some started_state
      unfolding step taken_state started_state phase_of set_phase
      start_step = ground arith

      write_step : step b (write_cancel a) started_state ≡ some cancelled_state
      unfolding taken_state started_state cancelled_state start_send checked_state
      write_step =
          step-write_cancel started_state a s.cancelling (take_call_head a s.cancelling)
            (ground (arith, stored))

      finish_step :
          step b (finish a (answered ack us) ack_id acked_at) cancelled_state ≡ some acked_state
      unfolding step taken_state started_state cancelled_state acked_state phase_of finish_send
          finish_thread
      finish_step = rw (==_refl a) (ground arith)

      awaits : phase_of a cancelled_state.threads ≡ some awaiting
      unfolding cancelled_state started_state phase_of
      awaits = rw (==_refl a)

      acks : (acked_state.shared.queue.cell a).status ≡ acked
      unfolding acked_state
      acks = finish_send-acked s.config ack_id acked_at a ack us cancelled_state.shared good

      -- From a state that meets the invariant, with a free slot and a stored command that `Dequeue`
      -- would take: when the dispatch loop takes it between the two halves of `Cancel`, the run goes
      -- through, the command stands as cancelled while its adapter is at work, and on a positive
      -- answer it ends acknowledged.
      pub cancel_race :
          (t u : System B) × (run b
              (check_cancel id ∷ dispatch now ∷ start a start_id sent_at ∷ write_cancel a ∷ [])
              s
            ≡ some t)
          × ((t.shared.queue.cell a).status ≡ cancelled)
          × (phase_of a t.threads ≡ some awaiting)
          × (run b (finish a (answered ack us) ack_id acked_at ∷ []) t ≡ some u)
          × ((u.shared.queue.cell a).status ≡ acked)
      unfolding cancelled_state started_state
      cancel_race = (
        cancelled_state,
        acked_state,
        run-cons _ _ s checked_state check_step
            ∙ (run-cons _ _ checked_state taken_state loop_step
                ∙ (run-cons _ _ taken_state started_state start_step
                    ∙ (run-cons _ _ started_state cancelled_state write_step
                        ∙ run-nil cancelled_state))),
        ground arith,
        awaits,
        run-cons _ _ cancelled_state acked_state finish_step ∙ run-nil acked_state,
        acks,
      )

-- ===== src/Command/Scheduler/Outcomes.antt =====
-- What becomes of a command after each outcome of a send attempt.
use openspace_os_core.Base.{
  if_of_false, if_of_true, sym, ℕ, ◌+◌, ◌-◌, refl, ◌*◌, ◌%◌, ◌^◌, pos_part, ◌≡◌, ◌∙◌, ap, ℤ, pos,
  String, Option, none, some, ltb_ℤ, if◌then◌else◌, if_cases, Bool-cases, ==_refl, inl, inr, arith,
}
use openspace_os_core.Bus.{MessageBus}
use openspace_os_core.Command.Item.{CommandItem, failed, acked}
use openspace_os_core.Command.Queue.{PriorityQueue, modify, update}
use openspace_os_core.Command.Queue.Valid.{cell-update}
use openspace_os_core.Command.Scheduler.{
  SchedulerConfig, Shared, Outcome, no_adapter, timed_out, send_error, answered, backoff, int64,
  mark_failed, mark_acked, retry_or_fail, finish_send, confirm,
}

-- The item after a failed attempt and the sender's next wait: within `MaxRetries` one more retry
-- after the base times two to the number of earlier retries, in 64 bits; else the command fails. The
-- reason is recorded either way.
abbrev pub after_failure : SchedulerConfig → String → CommandItem → CommandItem × Option ℤ
after_failure config msg item =
    if ltb_ℤ (pos item.retry_count) config.max_retries
    then (
      record item { retry_count = item.retry_count + 1; error = msg },
      some (int64 ((pos_part config.retry_backoff * (2 ^ item.retry_count % 2 ^ 64)) % 2 ^ 64)),
    )
    else (record item { status = failed; error = msg }, none)

-- The same after any attempt, the adapter's acknowledgement included.
abbrev pub after_attempt : SchedulerConfig → ℕ → Outcome → CommandItem → CommandItem × Option ℤ
after_attempt config now no_adapter item = after_failure config "未设置指令适配器" item
after_attempt config now timed_out item = after_failure config "发送超时" item
after_attempt config now (send_error msg us) item = after_failure config msg item
after_attempt config now (answered ack us) item =
    if ack.success
    then (record item { status = acked; ack = some ack; acked_at = some now }, none)
    else after_failure config ack.message item

sub_one : (n : ℕ) → n + 1 - 1 ≡ n
sub_one n = omega arith

backoff-suc :
    (base : ℤ) (n : ℕ) → backoff base (n + 1) ≡ int64 ((pos_part base * (2 ^ n % 2 ^ 64)) % 2 ^ 64)
unfolding backoff
backoff-suc base n = rw (sub_one n) refl

write-cell :
    (q : PriorityQueue) (a : ℕ) (f : CommandItem → CommandItem)
    → (update (modify q a f) a).cell a ≡ f (q.cell a)
write-cell q a f = ap (λ g. g a) (cell-update (modify q a f) a) ∙ rw (==_refl a)

module _ {B : Type 0} where
  retry_or_fail_lem :
      (config : SchedulerConfig) (a : ℕ) (msg : String) (s : Shared B)
      → ((retry_or_fail config a msg s).0.queue.cell a, (retry_or_fail config a msg s).1)
        ≡ after_failure config msg (s.queue.cell a)
  unfolding retry_or_fail
  retry_or_fail_lem config a msg s =
      elim (Bool-cases (ltb_ℤ (pos (s.queue.cell a).retry_count) config.max_retries)) [
        | inl more ↦
            rw (more, ==_refl a, backoff-suc config.retry_backoff (s.queue.cell a).retry_count)
        | inr out ↦ rw (out, write-cell s.queue a (mark_failed msg))
      ]

module _ {B : Type 0} (b : MessageBus B) (config : SchedulerConfig) (event_id : String)
    (now a : ℕ) where
  abbrev finished : Outcome → Shared B → CommandItem × Option ℤ
  finished o s = let r = finish_send b config event_id now a o s in (r.0.queue.cell a, r.1)

  -- Whatever the outcome, `sendItem` leaves the item, and asks for a further wait, as
  -- `after_attempt` says: acknowledged and done on a positive acknowledgement; else, with the
  -- reason in its error field, one more retry after a backoff while retries are left, and failed
  -- once they are used up.
  pub finish_send_lem :
      (o : Outcome) (s : Shared B) → finished o s ≡ after_attempt config now o (s.queue.cell a)
  unfolding finish_send confirm
  finish_send_lem no_adapter s = retry_or_fail_lem config a _ s
  finish_send_lem timed_out s = retry_or_fail_lem config a _ _
  finish_send_lem (send_error msg us) s = retry_or_fail_lem config a msg _
  finish_send_lem (answered ack us) s =
      if_cases {A = Shared B × Option ℤ}
        (λ r. (r.0.queue.cell a, r.1) ≡ after_attempt config now (answered ack us) (s.queue.cell a))
        ack.success
        (λ good.
          ap (λ i. (i, none)) (write-cell s.queue a (mark_acked now ack))
          ∙ sym (if_of_true _ _ good))
        (λ bad. retry_or_fail_lem config a ack.message _ ∙ sym (if_of_false _ _ bad))

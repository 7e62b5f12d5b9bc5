-- ===== src/Command/System/Safe.antt =====
-- The invariant of the running pipeline (internal/pipeline/command), over its queue and threads.
use openspace_os_core.Base.{
  ℕ, ◌≤◌, ◌<◌, ◌≡◌, ◌≢◌, false, none, some, List, ◌∷◌, arith, subst, lookup, length, ◌==◌, pos_part,
  inl, inr, eq_iff, lookup-insert, Bool-cases,
}
use openspace_os_core.Command.Item.{CommandItem, is_queued}
use openspace_os_core.Command.Queue.{PriorityQueue, id_at, modify, update, alloc, enqueue, ok}
use openspace_os_core.Command.Queue.Valid.{
  IsValid, modify-IsValid, alloc-IsValid, enqueue-IsValid, enqueue-ok, update_known,
}
use openspace_os_core.Command.Scheduler.{SchedulerConfig}
use openspace_os_core.Command.System.{
  Phase, starting, phase_of, set_phase, finish_thread, take_call,
}
use openspace_os_core.Command.System.Threads.{
  IsThreads, phase_of-set_phase, set_phase-IsThreads, length-set_phase, phase_of-finish_thread,
  finish_thread-IsThreads, length-finish_thread, take_call_left,
}

-- The map holds the item under its id.
abbrev pub IsStored : PriorityQueue → ℕ → Type 0
IsStored q a = lookup (id_at q a) q.items ≡ some a

-- A sender's item is in the map, and is not queued: nothing can send it a second time meanwhile.
pub record IsHeld (q : PriorityQueue) (a : ℕ) : Type 0 where
  pub stored : IsStored q a
  pub busy : is_queued (q.cell a).status ≡ false

pub record IsSafe (q : PriorityQueue) (ts : List (ℕ × Phase)) (cs : List ℕ) (c : SchedulerConfig)
    : Type 0 where
  pub valid : IsValid q
  pub single : IsThreads ts
  pub held : (a : ℕ) → phase_of a ts ≢ none → IsHeld q a
  pub slots : length ts ≤ pos_part c.max_concurrent
  pub retries : (a : ℕ) → (q.cell a).retry_count ≤ pos_part c.max_retries
  pub cancels : (a : ℕ) → take_call a cs ≢ none → IsStored q a

-- Through a pointer that the map holds, `Update` changes nothing.
pub update-modify :
    (q : PriorityQueue) (a : ℕ) (f : CommandItem → CommandItem)
    → (f (q.cell a)).command ≡ (q.cell a).command
    → IsStored q a
    → update (modify q a f) a ≡ modify q a f
update-modify q a f same h = update_known (modify q a f) a (inr (ground arith))

module _ {q : PriorityQueue} {ts : List (ℕ × Phase)} {cs : List ℕ} {c : SchedulerConfig}
    (s : IsSafe q ts cs c) where
  -- A write to one item that keeps its command, stays within the retries, and queues the item only
  -- if it has no sender.
  pub modify-IsSafe :
      (a : ℕ) (f : CommandItem → CommandItem)
      → (f (q.cell a)).command ≡ (q.cell a).command
      → (phase_of a ts ≢ none → is_queued (f (q.cell a)).status ≡ false)
      → (f (q.cell a)).retry_count ≤ pos_part c.max_retries
      → IsSafe (modify q a f) ts cs c
  modify-IsSafe a f same busy within = record {
    valid = modify-IsValid q a f same s.valid;
    single = s.single;
    held = λ b h.
        let old = s.held b h in
        record {
          stored = ground (arith, old.stored);
          busy = elim (Bool-cases (b == a)) [
            | inl hit ↦ let e : b ≡ a = ground arith in ground (arith, busy (λ n. h (ground arith)))
            | inr miss ↦ ground (arith, old.busy)
          ];
        };
    slots = s.slots;
    retries = λ b. ground (arith, s.retries b);
    cancels = λ b h. ground (arith, s.cancels b h);
  }

  pub finish_thread-IsSafe : (a : ℕ) → IsSafe q (finish_thread a ts) cs c
  finish_thread-IsSafe a = record {
    valid = s.valid;
    single = finish_thread-IsThreads a ts s.single;
    held = λ b h. s.held b (λ n. h (ground (arith, phase_of-finish_thread a b ts s.single)));
    slots = omega (arith, s.slots, length-finish_thread a ts);
    retries = s.retries;
    cancels = s.cancels;
  }

  pub set_phase-IsSafe :
      (a : ℕ) (p : Phase) → phase_of a ts ≢ none → IsSafe q (set_phase a p ts) cs c
  set_phase-IsSafe a p there = record {
    valid = s.valid;
    single = set_phase-IsThreads a p ts s.single;
    held = λ b h. elim (Bool-cases (a == b)) [
      | inl hit ↦ s.held b (λ n. there (ground arith))
      | inr miss ↦ s.held b (λ n. h (ground (arith, phase_of-set_phase a b p ts there)))
    ];
    slots = omega (arith, s.slots, length-set_phase a p ts);
    retries = s.retries;
    cancels = s.cancels;
  }

  pub spawn-IsSafe :
      (a : ℕ)
      → phase_of a ts ≡ none
      → IsHeld q a
      → length ts < pos_part c.max_concurrent
      → IsSafe q ((a, starting) ∷ ts) cs c
  unfolding phase_of
  spawn-IsSafe a new held room = record {
    valid = s.valid;
    single = (new, s.single);
    held = λ b h. elim (Bool-cases (a == b)) [
      | inl hit ↦ let e : a ≡ b = ground arith in subst (IsHeld q) e held
      | inr miss ↦ s.held b (λ n. h (ground arith))
    ];
    slots = omega arith;
    retries = s.retries;
    cancels = s.cancels;
  }

  pub check-IsSafe : (a : ℕ) → IsStored q a → IsSafe q ts (a ∷ cs) c
  unfolding take_call
  check-IsSafe a stored = record {
    valid = s.valid;
    single = s.single;
    held = s.held;
    slots = s.slots;
    retries = s.retries;
    cancels = λ b h. elim (Bool-cases (a == b)) [
      | inl hit ↦ let e : a ≡ b = ground arith in subst (IsStored q) e stored
      | inr miss ↦ s.cancels b (λ n. h (ground arith))
    ];
  }

  pub take_call-IsSafe : (a : ℕ) {rest : List ℕ} → take_call a cs ≡ some rest → IsSafe q ts rest c
  take_call-IsSafe a e = record {
    valid = s.valid;
    single = s.single;
    held = s.held;
    slots = s.slots;
    retries = s.retries;
    cancels = λ b h. s.cancels b (take_call_left a b cs e h);
  }

  -- A new command: every stored item stays where it is.
  pub enqueue-IsSafe :
      (item : CommandItem) (now : ℕ) {q' : PriorityQueue}
      → item.retry_count ≡ 0
      → enqueue (alloc item q).1 (some (alloc item q).0) now ≡ ok q'
      → IsSafe q' ts cs c
  unfolding alloc
  enqueue-IsSafe item now zero_retries e =
      let q₁ = (alloc item q).1 in
      let (new, named, made) = enqueue-ok q₁ q.next now e in
      let keeps : (a : ℕ) → IsStored q a → a < q.next =
        λ a h. (s.valid.entries (id_at q a) a h).allocated in
      rw made (record {
        valid =
            rw made at
              (enqueue-IsValid q₁ q.next now (alloc-IsValid item q s.valid) (omega arith) e);
        single = s.single;
        held = λ a h.
            let old = s.held a h in
            record {
              stored = ground (
                arith,
                old.stored,
                keeps a old.stored,
                eq_iff item.command.command_id (id_at q a),
                lookup-insert item.command.command_id (id_at q a) q.next q.items,
              );
              busy = ground (arith, old.busy, keeps a old.stored);
            };
        slots = s.slots;
        retries = λ a. ground (arith, s.retries a);
        cancels = λ a h. ground (
          arith,
          s.cancels a h,
          keeps a,
          eq_iff item.command.command_id (id_at q a),
          lookup-insert item.command.command_id (id_at q a) q.next q.items,
        );
      })

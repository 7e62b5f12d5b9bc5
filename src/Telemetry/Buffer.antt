-- ===== src/Telemetry/Buffer.antt =====
-- The buffer between the receiver and the parser: `BufferQueue` and `Metrics` of
-- internal/pipeline/telemetry/metrics.go. A channel is the list of what it holds, oldest first.
pub mod Latest
use openspace_os_core.Base.{
  ℕ, suc, ◌+◌, ltb, leb_ℤ, ℤ, pos, pos_part, String, Bool, true, false, Option, none, some, List,
  [], ◌∷◌, ◌++◌, length, if◌then◌else◌,
}

pub record Metrics : Type 0 where
  pub ingress_qps : ℕ
  pub parse_latency : ℕ
  pub drop_count : ℕ

abbrev pub dropped : Metrics → Metrics
dropped m = record m { drop_count = suc m.drop_count }

pub record BufferQueue : Type 0 where
  pub ch : List String
  pub max_size : ℕ
  pub metrics : Metrics
  pub closed : Bool

abbrev pub new_metrics : Metrics
new_metrics = record { ingress_qps = 0; parse_latency = 0; drop_count = 0 }

unfoldable pub new_buffer_queue : ℤ → Option Metrics → BufferQueue
new_buffer_queue max_size metrics = record {
  ch = [];
  max_size = if leb_ℤ max_size (pos 0) then 1024 else pos_part max_size;
  metrics = elim metrics [ none ↦ new_metrics | some m ↦ m ];
  closed = false;
}

abbrev pub has_room : BufferQueue → Bool
has_room q = ltb (length q.ch) q.max_size

-- `case q.ch <- data`, where it can be taken.
abbrev pub enqueued : String → BufferQueue → BufferQueue
enqueued x q = record q { ch = q.ch ++ (x ∷ []) }

-- `case <-q.ch`, where it can be taken.
abbrev pub without_oldest : List String → BufferQueue → BufferQueue
without_oldest [] q = q
without_oldest (y ∷ ys) q = record q { ch = ys; metrics = dropped q.metrics }

abbrev pub drop_oldest : BufferQueue → BufferQueue
drop_oldest q = without_oldest q.ch q

-- The second attempt.
abbrev pub retry : String → BufferQueue → BufferQueue
retry x q = if has_room q then enqueued x q else record q { metrics = dropped q.metrics }

-- `Push` on a queue that nothing else touches meanwhile.
unfoldable pub push : String → BufferQueue → BufferQueue
push x q = if has_room q then enqueued x q else retry x (drop_oldest q)

-- `Pop` and `TryPop` of a queue that is not empty; `none` stands for waiting, for the end of a closed
-- queue and for the default of `TryPop`.
unfoldable pub pop : BufferQueue → Option String × BufferQueue
pop q = elim q.ch [ [] ↦ (none, q) | x ∷ xs ↦ (some x, record q { ch = xs }) ]

unfoldable pub close : BufferQueue → BufferQueue
close q = record q { closed = true }

unfoldable pub push_all : List String → BufferQueue → BufferQueue
push_all [] q = q
push_all (x ∷ xs) q = push_all xs (push x q)

-- ===== src/Command/Queue/Drain.antt =====
-- Repeated calls of `Dequeue`, as the dispatch loop makes them, hand the queued commands out in the
-- order of a priority queue.
use openspace_os_core.Base.{
  ◌⊎◌, ℕ, suc, ◌+◌, ◌≡◌, refl, String, true, false, Option, none, some, List, [], ◌∷◌, map, arith,
  str_eq, eq_iff, lookup, IsMap, Bool-cases, count_if, length, All, inl, inr, ◌≢◌, sym, ◌∙◌, ◌≤◌,
  ltb_ℤ, eqb_ℤ,
}
use openspace_os_core.Command.Item.{CommandItem, is_queued}
use openspace_os_core.Command.Queue.{
  PriorityQueue, modify, mark_sending, ahead, dequeue, pending_count,
}
use openspace_os_core.Command.Queue.Valid.{IsValid, dequeue-IsValid, lookup_injective}
use openspace_os_core.Command.Queue.Best.{IsBest, Dequeued, idle, taken, dequeue-Dequeued}

abbrev queued_in : (ℕ → CommandItem) → List (String × ℕ) → ℕ
queued_in cell m = count_if (λ a. is_queued (cell a).status) (map (λ e. e.1) m)

module _ (q : PriorityQueue) (a now : ℕ) where
  abbrev marked : ℕ → CommandItem
  marked = (modify q a (mark_sending now)).cell

  queued_in_absent :
      (m : List (String × ℕ))
      → IsMap m
      → ((k : String) → lookup k m ≢ some a)
      → queued_in marked m ≡ queued_in q.cell m
  queued_in_absent [] v h = refl
  queued_in_absent ((i, c) ∷ m) v h = ground (
    arith,
    h i,
    eq_iff i i,
    queued_in_absent m v.1 (λ k e. h k (ground (arith, eq_iff i k, v.0))),
  )

  -- Marking the one queued item at `a` takes one off the count.
  queued_in-marked :
      (m : List (String × ℕ)) (k : String)
      → IsMap m
      → lookup k m ≡ some a
      → ((j : String) → lookup j m ≡ some a → k ≡ j)
      → is_queued (q.cell a).status ≡ true
      → queued_in q.cell m ≡ suc (queued_in marked m)
  queued_in-marked [] k v h only due = absurd (ground arith)
  queued_in-marked ((i, c) ∷ m) k v h only due = elim (Bool-cases (str_eq i k)) [
    | inl hit ↦
        let same : c ≡ a = ground arith in
        let rest =
          queued_in_absent m v.1 (λ j e. ground (arith, eq_iff i k, eq_iff i j, only j, v.0)) in
        ground (arith, rest)
    | inr miss ↦
        let there : lookup k m ≡ some a = ground arith in
        let fresh : c ≢ a = λ e. ground (arith, only i, eq_iff i i, eq_iff i k) in
        let rest =
          queued_in-marked m k v.1 there (λ j e. only j (ground (arith, eq_iff i j, v.0))) due in
        ground (arith, rest, fresh)
  ]

queued_in_none :
    (cell : ℕ → CommandItem) (m : List (String × ℕ))
    → IsMap m
    → ((k : String) (b : ℕ) → lookup k m ≡ some b → is_queued (cell b).status ≡ false)
    → queued_in cell m ≡ 0
queued_in_none cell [] v h = refl
queued_in_none cell ((i, c) ∷ m) v h =
    let rest = queued_in_none cell m v.1 (λ k b e. h k b (ground (arith, eq_iff i k, v.0))) in
    ground (arith, rest, h i c, eq_iff i i)

-- What a round of the dispatch loop does with the result of `Dequeue`: nothing is due, or the
-- command goes out and the loop goes on.
abbrev pub drain_round :
    (PriorityQueue → List ℕ × PriorityQueue) → Option ℕ × PriorityQueue → List ℕ × PriorityQueue
drain_round rest (none, q) = ([], q)
drain_round rest (some a, q) = let (out, q') = rest q in (a ∷ out, q')

-- Calls of `Dequeue` at the given clock readings, until one finds nothing.
unfoldable pub drain : List ℕ → PriorityQueue → List ℕ × PriorityQueue
drain [] q = ([], q)
drain (t ∷ ts) q = drain_round (drain ts) (dequeue q t)

-- No item of the list goes before one that stands to its left.
abbrev InOrder : (ℕ → CommandItem) → List ℕ → Type 0
InOrder cell [] = Unit
InOrder cell (a ∷ out) = All (λ b. ahead (cell b) (cell a) ≡ false) out × InOrder cell out

-- `x` has the higher priority, or they have the same one and `y` did not enter earlier.
abbrev pub Precedes : CommandItem → CommandItem → Type 0
Precedes x y =
    (ltb_ℤ y.priority x.priority ≡ true)
    ⊎ ((eqb_ℤ y.priority x.priority ≡ true) × (x.enqueued_at ≤ y.enqueued_at))

-- Each item precedes all that stand to its right.
abbrev pub IsRanked : (ℕ → CommandItem) → List ℕ → Type 0
IsRanked cell [] = Unit
IsRanked cell (a ∷ out) = All (λ b. Precedes (cell a) (cell b)) out × IsRanked cell out

not_ahead-Precedes : (x y : CommandItem) → ahead y x ≡ false → Precedes x y
unfolding ahead
not_ahead-Precedes x y h = ground (arith, h)

InOrder-IsRanked : (cell : ℕ → CommandItem) (out : List ℕ) → InOrder cell out → IsRanked cell out
InOrder-IsRanked cell [] h = tt
InOrder-IsRanked cell (a ∷ out) (h, rest) = (precede out h, InOrder-IsRanked cell out rest)
  where
    precede :
        (bs : List ℕ)
        → All (λ b. ahead (cell b) (cell a) ≡ false) bs
        → All (λ b. Precedes (cell a) (cell b)) bs
    precede [] g = tt
    precede (b ∷ bs) (g, gs) = (not_ahead-Precedes (cell a) (cell b) g, precede bs gs)

abbrev pub IsDue : PriorityQueue → ℕ → Type 0
IsDue q a = (k : String) × (lookup k q.items ≡ some a) × (is_queued (q.cell a).status ≡ true)

record Drains (q : PriorityQueue) (n : ℕ) (r : List ℕ × PriorityQueue) : Type 0 where
  ordered : InOrder q.cell r.0
  due : All (IsDue q) r.0
  left : length r.0 + pending_count r.1 ≡ pending_count q
  enough : (length r.0 ≡ n) ⊎ (pending_count r.1 ≡ 0)

pub record IsDrained (q : PriorityQueue) (n : ℕ) (r : List ℕ × PriorityQueue) : Type 0 where
  pub ordered : IsRanked q.cell r.0
  pub due : All (IsDue q) r.0
  pub left : length r.0 + pending_count r.1 ≡ pending_count q
  pub enough : (length r.0 ≡ n) ⊎ (pending_count r.1 ≡ 0)

module _ (q : PriorityQueue) (a t : ℕ) where
  ahead-marked : (x y : ℕ) → ahead (marked q a t x) (marked q a t y) ≡ ahead (q.cell x) (q.cell y)
  unfolding ahead
  ahead-marked x y = ground arith

  InOrder-unmark : (out : List ℕ) → InOrder (marked q a t) out → InOrder q.cell out
  InOrder-unmark [] h = tt
  InOrder-unmark (x ∷ out) h = (below out h.0, InOrder-unmark out h.1)
    where
      below :
          (bs : List ℕ)
          → All (λ b. ahead (marked q a t b) (marked q a t x) ≡ false) bs
          → All (λ b. ahead (q.cell b) (q.cell x) ≡ false) bs
      below [] g = tt
      below (b ∷ bs) g = (sym (ahead-marked b x) ∙ g.0, below bs g.1)

  IsDue-unmark : (out : List ℕ) → All (IsDue (modify q a (mark_sending t))) out → All (IsDue q) out
  IsDue-unmark [] h = tt
  IsDue-unmark (x ∷ out) ((k, stored, due), h) = ((k, stored, ground arith), IsDue-unmark out h)

  unbeaten-All :
      (out : List ℕ)
      → IsBest q.cell q.items a
      → All (IsDue q) out
      → All (λ b. ahead (q.cell b) (q.cell a) ≡ false) out
  unbeaten-All [] best h = tt
  unbeaten-All (x ∷ out) best ((k, stored, due), h) =
      (best.unbeaten k x stored due, unbeaten-All out best h)

drain_round-Drains :
    (q : PriorityQueue) (t n : ℕ) (rest : PriorityQueue → List ℕ × PriorityQueue)
    (r : Option ℕ × PriorityQueue)
    → IsValid q
    → ((q' : PriorityQueue) → IsValid q' → Drains q' n (rest q'))
    → IsValid r.1
    → Dequeued q t r
    → Drains q (suc n) (drain_round rest r)
unfolding pending_count
drain_round-Drains q t n rest r v ih v' (idle h) =
    let zero_left = queued_in_none q.cell q.items v.distinct h in
    record { ordered = tt; due = tt; left = omega arith; enough = inr zero_left }
drain_round-Drains q t n rest r v ih v' (taken k a h best) =
    let q' = modify q a (mark_sending t) in
    let d = ih q' v' in
    let out = (rest q').0 in
    let due' = IsDue-unmark q a t out d.due in
    let count =
      queued_in-marked q a t q.items k v.distinct h (λ j e. lookup_injective q k j a v h e)
        best.due in
    record {
      ordered = (unbeaten-All q a t out best due', InOrder-unmark q a t out d.ordered);
      due = ((k, h, best.due), due');
      left = omega (arith, count, d.left);
      enough = ground (arith, d.enough);
    }

drain-Drains : (ts : List ℕ) (q : PriorityQueue) → IsValid q → Drains q (length ts) (drain ts q)
unfolding drain
drain-Drains [] q v = record { ordered = tt; due = tt; left = omega arith; enough = inl refl }
drain-Drains (t ∷ ts) q v =
    drain_round-Drains q t (length ts) (drain ts) (dequeue q t) v (λ q' v'. drain-Drains ts q' v')
      (dequeue-IsValid q t v) (dequeue-Dequeued q t v)

-- However many calls of `Dequeue` are made on a well-formed queue, the commands that they return were
-- all queued, come out by falling priority and, at the same priority, by rising entry time, leave the
-- queue's pending count by one each, and the calls stop short only when nothing is pending.
pub drain-IsDrained :
    (ts : List ℕ) (q : PriorityQueue) → IsValid q → IsDrained q (length ts) (drain ts q)
drain-IsDrained ts q v =
    let d = drain-Drains ts q v in
    record {
      ordered = InOrder-IsRanked q.cell (drain ts q).0 d.ordered;
      due = d.due;
      left = d.left;
      enough = d.enough;
    }

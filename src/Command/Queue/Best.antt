-- ===== src/Command/Queue/Best.antt =====
-- `Dequeue` takes the command that is due: the best one by priority and entry time.
use openspace_os_core.Base.{
  subst, ℕ, ◌≡◌, refl, ◌⊎◌, inl, inr, String, true, false, Option, none, some, List, [], ◌∷◌, arith,
  str_eq, eq_iff, lookup, IsMap, Option-cases, Bool-cases,
}
use openspace_os_core.Command.Item.{CommandItem, is_queued}
use openspace_os_core.Command.Queue.{
  PriorityQueue, modify, mark_sending, ahead, pick, select_best, dequeue,
}
use openspace_os_core.Command.Queue.Valid.{IsValid}

pub ahead_irrefl : (x : CommandItem) → ahead x x ≡ false
unfolding ahead
ahead_irrefl x = ground arith

-- If `x` is not ahead of `y`, and `y` not ahead of `z`, then `x` is not ahead of `z`.
pub not_ahead_trans :
    (x y z : CommandItem) → ahead x y ≡ false → ahead y z ≡ false → ahead x z ≡ false
unfolding ahead
not_ahead_trans x y z h g = ground arith

pub ahead_asym : (x y : CommandItem) → ahead x y ≡ true → ahead y x ≡ false
unfolding ahead
ahead_asym x y h = ground arith

module _ (cell : ℕ → CommandItem) where
  -- `a` is queued, and no queued item of the map goes before it.
  pub record IsBest (m : List (String × ℕ)) (a : ℕ) : Type 0 where
    pub due : is_queued (cell a).status ≡ true
    pub unbeaten :
        (k : String) (b : ℕ)
        → lookup k m ≡ some b
        → is_queued (cell b).status ≡ true
        → ahead (cell b) (cell a) ≡ false

  -- What the loop keeps: the candidate so far is queued and loses to nothing seen.
  abbrev Candidate : Option ℕ → Type 0
  Candidate none = Unit
  Candidate (some b) = is_queued (cell b).status ≡ true

  pick-Candidate : (a : ℕ) (best : Option ℕ) → Candidate best → Candidate (pick cell a best)
  unfolding pick
  pick-Candidate a none h = ground arith
  pick-Candidate a (some b) h = ground arith

  select_best-due :
      (m : List (String × ℕ)) (best : Option ℕ) (a : ℕ)
      → Candidate best
      → select_best cell m best ≡ some a
      → is_queued (cell a).status ≡ true
  unfolding select_best
  select_best-due [] none a h e = absurd (ground arith)
  select_best-due [] (some b) a h e = ground arith
  select_best-due ((k, c) ∷ m) best a h e =
      select_best-due m (pick cell c best) a (pick-Candidate c best h) e

  -- A candidate is only given up for one that goes before it.
  pick_keeps :
      (c b : ℕ) → (d : ℕ) × (pick cell c (some b) ≡ some d) × (ahead (cell b) (cell d) ≡ false)
  unfolding pick
  pick_keeps c b = elim (Bool-cases (is_queued (cell c).status)) [
    | inl due ↦ elim (Bool-cases (ahead (cell c) (cell b))) [
      | inl better ↦ (c, ground arith, ahead_asym (cell c) (cell b) better)
      | inr worse ↦ (b, ground arith, ahead_irrefl (cell b))
    ]
    | inr other ↦ (b, ground arith, ahead_irrefl (cell b))
  ]

  pick_meets :
      (c : ℕ) (best : Option ℕ)
      → is_queued (cell c).status ≡ true
      → (d : ℕ) × (pick cell c best ≡ some d) × (ahead (cell c) (cell d) ≡ false)
  unfolding pick
  pick_meets c none due = (c, ground arith, ahead_irrefl (cell c))
  pick_meets c (some b) due = elim (Bool-cases (ahead (cell c) (cell b))) [
    | inl better ↦ (c, ground arith, ahead_irrefl (cell c))
    | inr worse ↦ (b, ground arith, worse)
  ]

  select_best-ge :
      (m : List (String × ℕ)) (b : ℕ)
      → (a : ℕ) × (select_best cell m (some b) ≡ some a) × (ahead (cell b) (cell a) ≡ false)
  unfolding select_best
  select_best-ge [] b = (b, refl, ahead_irrefl (cell b))
  select_best-ge ((k, c) ∷ m) b =
      let (d, e, h) = pick_keeps c b in
      let (a, f, g) = select_best-ge m d in
      (a, rw e f, not_ahead_trans (cell b) (cell d) (cell a) h g)

  pub select_best-unbeaten :
      (m : List (String × ℕ)) (best : Option ℕ) (k : String) (b : ℕ)
      → lookup k m ≡ some b
      → is_queued (cell b).status ≡ true
      → (a : ℕ) × (select_best cell m best ≡ some a) × (ahead (cell b) (cell a) ≡ false)
  unfolding select_best
  select_best-unbeaten [] best k b h due = absurd (ground arith)
  select_best-unbeaten ((i, c) ∷ m) best k b h due = elim (Bool-cases (str_eq i k)) [
    | inl hit ↦
        let same : c ≡ b = ground arith in
        let (d, e, g) = pick_meets c best (rw same due) in
        let (a, f, w) = select_best-ge m d in
        (
          a,
          rw e f,
          not_ahead_trans (cell b) (cell d) (cell a)
              (subst (λ x. ahead (cell x) (cell d) ≡ false) same g) w,
        )
    | inr miss ↦ select_best-unbeaten m (pick cell c best) k b (ground arith) due
  ]

  pick_old_or_new :
      (c : ℕ) (best : Option ℕ) (a : ℕ) → pick cell c best ≡ some a → (best ≡ some a) ⊎ (c ≡ a)
  unfolding pick
  pick_old_or_new c none a e = ground arith
  pick_old_or_new c (some b) a e = ground arith

  -- The result is the first candidate or stands in the map.
  select_best-listed :
      (m : List (String × ℕ)) (best : Option ℕ) (a : ℕ)
      → IsMap m
      → select_best cell m best ≡ some a
      → (best ≡ some a) ⊎ ((k : String) × (lookup k m ≡ some a))
  unfolding select_best
  select_best-listed [] best a v e = inl e
  select_best-listed ((i, c) ∷ m) best a v e =
      elim (select_best-listed m (pick cell c best) a v.1 e) [
        | inl p ↦ elim (pick_old_or_new c best a p) [
          | inl old ↦ inl old
          | inr new ↦ inr (i, ground (arith, eq_iff i i))
        ]
        | inr (k, p) ↦ inr (k, ground (arith, eq_iff i k))
      ]

-- What `Dequeue` promises of a valid queue. Either nothing is queued and nothing changes, or it
-- returns a stored item that is queued and beaten by no queued item, and marks that one alone.
pub data Dequeued (q : PriorityQueue) (now : ℕ) : Option ℕ × PriorityQueue → Type 0 where
  idle :
      ((k : String) (b : ℕ) → lookup k q.items ≡ some b → is_queued (q.cell b).status ≡ false)
      → Dequeued q now (none, q)
  taken :
      (k : String) (a : ℕ)
      → lookup k q.items ≡ some a
      → IsBest q.cell q.items a
      → Dequeued q now (some a, modify q a (mark_sending now))

-- On a well-formed queue `Dequeue` either finds nothing queued and changes nothing, or returns a
-- stored and queued item that no queued item beats, and marks that one alone as being sent.
pub dequeue-Dequeued : (q : PriorityQueue) (now : ℕ) → IsValid q → Dequeued q now (dequeue q now)
unfolding dequeue
dequeue-Dequeued q now v = elim (Option-cases (select_best q.cell q.items none)) [
  | inl e ↦
      rw (e, dequeue)
        (idle (λ k b h. elim (Bool-cases (is_queued (q.cell b).status)) [
          | inl due ↦
              let (a, f, _) = select_best-unbeaten q.cell q.items none k b h due in
              absurd (ground arith)
          | inr other ↦ other
        ]))
  | inr (a, e) ↦ elim (select_best-listed q.cell q.items none a v.distinct e) [
    | inl p ↦ absurd (ground arith)
    | inr (k, p) ↦
        rw (e, dequeue)
          (taken k a p (record {
            due = select_best-due q.cell q.items none a tt e;
            unbeaten = λ j b h due.
                let (c, f, g) = select_best-unbeaten q.cell q.items none j b h due in ground arith;
          }))
  ]
]

-- ===== src/Telemetry/Buffer/Latest.antt =====
-- What the buffer of internal/pipeline/telemetry/metrics.go holds after any number of pushes.
use openspace_os_core.Base.{
  inl, inr, take, take-append-drop, length-take, ℕ, suc, ◌+◌, ◌-◌, ◌≤◌, ◌<◌, ltb, String, List, [],
  ◌∷◌, ◌++◌, length, drop, ◌≡◌, ◌∙◌, refl, sym, ap, arith, length-append, length-drop, Bool-cases,
}
use mathlib.Core.List.{append_assoc, append-nil}
use openspace_os_core.Telemetry.Buffer.{BufferQueue, push, push_all}

-- The last `n` of a list.
abbrev pub latest : ℕ → List String → List String
latest n xs = drop (length xs - n) xs

record IsLatest (q : BufferQueue) (x : String) (r : BufferQueue) : Type 0 where
  ch : r.ch ≡ latest q.max_size (q.ch ++ (x ∷ []))
  size : r.max_size ≡ q.max_size
  count : r.metrics.drop_count + length r.ch ≡ q.metrics.drop_count + length q.ch + 1

drop-length : (ps rs : List String) (j : ℕ) → drop (length ps + j) (ps ++ rs) ≡ drop j rs
drop-length [] rs j = ground arith
drop-length (p ∷ ps) rs j =
    let e : suc (length ps) + j ≡ suc (length ps + j) = omega arith in
    ap (λ k. drop k (p ∷ (ps ++ rs))) e ∙ drop-length ps rs j

drop_short : (m : ℕ) (xs : List String) → length xs ≤ m → latest m xs ≡ xs
drop_short m xs h = let e : length xs - m ≡ 0 = omega arith in ap (λ k. drop k xs) e

sizes :
    (m : ℕ) (xs ys : List String)
    → length (xs ++ ys) - m ≡ length (take (length xs - m) xs) + (length (latest m xs ++ ys) - m)
sizes m xs ys =
    let both = length-append xs ys in
    let kept = length-append (latest m xs) ys in
    let lost = length-drop (length xs - m) xs in
    let gone = length-take (length xs - m) xs in omega arith

-- What is dropped early would be dropped later.
latest-append : (m : ℕ) (xs ys : List String) → latest m (latest m xs ++ ys) ≡ latest m (xs ++ ys)
latest-append m xs ys =
    let k = length xs - m in
    let a = take k xs in
    let b = drop k xs in
    let split : xs ++ ys ≡ a ++ (b ++ ys) =
      ap (λ zs. zs ++ ys) (sym (take-append-drop k xs)) ∙ append_assoc a b ys in
    let size : length (xs ++ ys) - m ≡ length a + (length (b ++ ys) - m) = sizes m xs ys in
    sym (
      ap (λ zs. drop (length (xs ++ ys) - m) zs) split
      ∙ (ap (λ n. drop n (a ++ (b ++ ys))) size ∙ drop-length a (b ++ ys) (length (b ++ ys) - m)))

module _ (x : String) (q : BufferQueue) where
  with_room : length q.ch < q.max_size → IsLatest q x (push x q)
  unfolding push
  with_room h =
      let long = length-append q.ch (x ∷ []) in
      record {
        ch = ground (arith, long, drop_short q.max_size (q.ch ++ (x ∷ [])));
        size = ground arith;
        count = ground (arith, long);
      }

  when_full :
      (y : String) (ys : List String)
      → q.ch ≡ y ∷ ys
      → length q.ch ≡ q.max_size
      → IsLatest q x (push x q)
  unfolding push
  when_full y ys e h =
      let long = length-append ys (x ∷ []) in
      let size : length (y ∷ ys) ≡ q.max_size = ground arith in
      record {
        ch = ground (arith, long, size);
        size = ground (arith, size);
        count = ground (arith, long, size);
      }

  length_cases :
      (ch : List String)
      → q.ch ≡ ch
      → length q.ch ≤ q.max_size
      → 0 < q.max_size
      → IsLatest q x (push x q)
  length_cases [] e h room = with_room (ground (arith, e))
  length_cases (y ∷ ys) e h room = elim (Bool-cases (ltb (length q.ch) q.max_size)) [
    | inl less ↦ with_room (ground (arith, less))
    | inr not_less ↦ when_full y ys e (ground (arith, not_less))
  ]

length-latest : (m : ℕ) (xs : List String) → length (latest m xs) ≤ m
length-latest m xs = ground (arith, length-drop (length xs - m) xs)

-- After any pushes the queue holds the latest data, as many as there is room for, in order, and each
-- datum that it does not hold was counted as dropped.
pub push_all-latest :
    (xs : List String) (q : BufferQueue)
    → 0 < q.max_size
    → length q.ch ≤ q.max_size
    → ((push_all xs q).ch ≡ latest q.max_size (q.ch ++ xs))
      × ((push_all xs q).metrics.drop_count + length (push_all xs q).ch
          ≡ q.metrics.drop_count + length q.ch + length xs)
unfolding push_all
push_all-latest [] q room fits =
    (ground (arith, append-nil q.ch, drop_short q.max_size q.ch fits), ground arith)
push_all-latest (x ∷ xs) q room fits =
    let one = length_cases x q q.ch refl fits room in
    let fit = length-latest q.max_size (q.ch ++ (x ∷ [])) in
    let (rest, count) =
      push_all-latest xs (push x q) (ground (arith, one.size))
        (ground (arith, one.ch, one.size, fit)) in
    (
      ground (
        arith,
        rest,
        one.ch,
        one.size,
        latest-append q.max_size (q.ch ++ (x ∷ [])) xs,
        append_assoc q.ch (x ∷ []) xs,
      ),
      ground (arith, count, one.count),
    )

-- ===== src/Store/Cleanup.antt =====
-- What `Cleanup` deletes and keeps (internal/core/event_store_memory.go).
use native.Mathlib.Decide.{dec_le}
use openspace_os_core.Base.{
  if_of_false, ◌⊎◌, ℕ, ◌+◌, ◌-◌, ◌≤◌, ◌≡◌, refl, pos, pos_part, true, false, none, List, [], ◌∷◌,
  arith, count_if, All, All-drop, length, drop, length-drop, ltb_ℤ, inl, inr, Without,
  keep_if-Without, ◌<◌,
}
use openspace_os_core.Store.{
  StoreConfig, MemEntry, MemoryEventStore, ok, is_expired, fresh, excess, cleanup,
}

abbrev Live : StoreConfig → ℕ → List MemEntry → Type 0
Live c now = All (λ m. is_expired c now m ≡ false)

fresh-Live : (c : StoreConfig) (now : ℕ) (ms : List MemEntry) → Live c now (fresh c now ms)
fresh-Live c now [] = tt
fresh-Live c now (m ∷ ms) = ground (arith, fresh-Live c now ms)

fresh_of_Live :
    (c : StoreConfig) (now : ℕ) (ms : List MemEntry) → Live c now ms → fresh c now ms ≡ ms
fresh_of_Live c now [] h = refl
fresh_of_Live c now (m ∷ ms) h = ground (arith, fresh_of_Live c now ms h.1)

count_of_Live :
    (c : StoreConfig) (now : ℕ) (ms : List MemEntry)
    → Live c now ms
    → count_if (is_expired c now) ms ≡ 0
count_of_Live c now [] h = refl
count_of_Live c now (m ∷ ms) h = ground (arith, count_of_Live c now ms h.1)

length-fresh :
    (c : StoreConfig) (now : ℕ) (ms : List MemEntry)
    → count_if (is_expired c now) ms + length (fresh c now ms) ≡ length ms
length-fresh c now [] = refl
length-fresh c now (m ∷ ms) = ground (arith, length-fresh c now ms)

-- An entry that was made more than the TTL ago.
abbrev pub IsOld : StoreConfig → ℕ → MemEntry → Type 0
IsOld c now m = m.created_at + pos_part c.ttl < now

fresh-Without :
    (c : StoreConfig) (now : ℕ) (ms : List MemEntry) → Without (IsOld c now) ms (fresh c now ms)
fresh-Without c now ms =
    keep_if-Without (IsOld c now) _ (λ m e. ground (arith, e)) (λ m e old. ground (arith, e, old))
      ms

not_old :
    (c : StoreConfig) (now : ℕ) (ms : List MemEntry) → Live c now ms → All (λ m. ¬ IsOld c now m) ms
not_old c now [] h = tt
not_old c now (m ∷ ms) (e, h) = (λ old. ground (arith, e, old), not_old c now ms h)

-- The deleted entries are the expired ones and, over the limit, the oldest of the rest.
pub record IsCleaned (now : ℕ) (s : MemoryEventStore) (r : ℕ × MemoryEventStore) : Type 0 where
  -- What stays is a last part of the entries that have not expired.
  pub newest :
      (n : ℕ) × (live : List MemEntry) × Without (IsOld s.cfg now) s.entries live
      × (r.1.entries ≡ drop n live)
      × ((n ≡ 0) ⊎ (length r.1.entries ≡ pos_part s.cfg.max_events))
  pub live : All (λ m. ¬ IsOld s.cfg now m) r.1.entries
  pub bounded : length r.1.entries ≤ pos_part s.cfg.max_events
  pub counted : r.0 + length r.1.entries ≡ length s.entries
  pub config : r.1.cfg ≡ s.cfg

-- The code's test and difference, for the positive limits that a store is made with.
excess-lem :
    (c : StoreConfig) (ms : List MemEntry)
    → ltb_ℤ (pos 0) c.max_events ≡ true
    → excess c ms ≡ length ms - pos_part c.max_events
excess-lem c ms e = ground arith

cleaned : StoreConfig → ℕ → List MemEntry → List MemEntry
cleaned c now ms = drop (excess c (fresh c now ms)) (fresh c now ms)

excess-cases : (n m e l : ℕ) → e ≡ n - m → l ≡ n - e → (e ≡ 0) ⊎ (l ≡ m)
excess-cases n m e l over rest = elim (dec_le n m) [
  | yes h ↦ inl (omega arith)
  | no h ↦ inr (omega arith)
]

-- Under a live context, `Cleanup` of an open store with a positive limit keeps no entry that was
-- appended more than the TTL before now, and
-- at most `MaxEvents` of the others, the newest of them, and reports exactly as many as it deletes.
pub cleanup-IsCleaned :
    (now : ℕ) (s : MemoryEventStore)
    → s.closed ≡ false
    → ltb_ℤ (pos 0) s.cfg.max_events ≡ true
    → (r : ℕ × MemoryEventStore) × (cleanup none now s ≡ ok r) × IsCleaned now s r
unfolding cleanup
cleanup-IsCleaned now s open_ limit =
    let live = fresh s.cfg now s.entries in
    let over = excess-lem s.cfg live limit in
    let rest = length-drop (excess s.cfg live) live in
    let sum = length-fresh s.cfg now s.entries in
    (
      (
        count_if (is_expired s.cfg now) s.entries + excess s.cfg live,
        record s { entries = drop (excess s.cfg live) live },
      ),
      if_of_false _ _ open_,
      record {
        newest = (
          excess s.cfg live,
          live,
          fresh-Without s.cfg now s.entries,
          refl,
          excess-cases _ _ _ _ over rest,
        );
        live =
            not_old s.cfg now _
              (All-drop _ (excess s.cfg live) live (fresh-Live s.cfg now s.entries));
        bounded = omega (arith, over, rest);
        counted = omega (arith, over, rest, sum);
        config = refl;
      },
    )

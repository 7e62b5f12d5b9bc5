-- ===== src/Migration/Order.antt =====
-- The order in which Migrate takes the migrations (internal/storage/migrator.go).
use mathlib.Core.List.{Perm, reverse, reverse_perm, reverse_aux, perm_middle, append-nil}
use mathlib.Core.List.Perm
use openspace_os_core.Base.{ℕ, ◌≤◌, List, [], ◌∷◌, ◌++◌, arith, ltb, All, if_cases, ltb→lt, subst}
use openspace_os_core.Migration.{Migration, sink, sink_all, sort_migrations}

abbrev IsFalling : List Migration → Type 0
IsFalling [] = Unit
IsFalling (m ∷ ms) = All (λ p. p.version ≤ m.version) ms × IsFalling ms

abbrev pub IsRising : List Migration → Type 0
IsRising [] = Unit
IsRising (m ∷ ms) = All (λ p. m.version ≤ p.version) ms × IsRising ms

All-sink :
    (n : ℕ) (m : Migration) (ms : List Migration)
    → m.version ≤ n
    → All (λ p. p.version ≤ n) ms
    → All (λ p. p.version ≤ n) (sink m ms)
unfolding sink
All-sink n m [] h hs = (h, tt)
All-sink n m (p ∷ ps) h hs =
    if_cases (All (λ q. q.version ≤ n)) (ltb m.version p.version)
      (λ less. (hs.0, All-sink n m ps h hs.1)) (λ more. (h, hs))

All-below :
    (n k : ℕ) (ms : List Migration)
    → n ≤ k
    → All (λ p. p.version ≤ n) ms
    → All (λ p. p.version ≤ k) ms
All-below n k [] le h = tt
All-below n k (m ∷ ms) le h = (omega arith, All-below n k ms le h.1)

sink-IsFalling : (m : Migration) (ms : List Migration) → IsFalling ms → IsFalling (sink m ms)
unfolding sink
sink-IsFalling m [] h = (tt, tt)
sink-IsFalling m (p ∷ ps) h =
    if_cases IsFalling (ltb m.version p.version)
      (λ less.
        (All-sink p.version m ps (omega (arith, ltb→lt _ _ less)) h.0, sink-IsFalling m ps h.1))
      (λ more.
        let le : p.version ≤ m.version = ground arith in
        ((le, All-below p.version m.version ps le h.0), h))

sink_all-IsFalling :
    (before ms : List Migration) → IsFalling before → IsFalling (sink_all before ms)
unfolding sink_all
sink_all-IsFalling before [] h = h
sink_all-IsFalling before (m ∷ ms) h =
    sink_all-IsFalling (sink m before) ms (sink-IsFalling m before h)

-- The reverse of a falling list, before a rising one that it does not exceed.
reverse_aux-IsRising :
    (ms ns : List Migration)
    → IsFalling ms
    → IsRising ns
    → All (λ m. All (λ n. m.version ≤ n.version) ns) ms
    → IsRising (reverse_aux ms ns)
reverse_aux-IsRising [] ns f r h = r
reverse_aux-IsRising (m ∷ ms) ns f r h =
    reverse_aux-IsRising ms (m ∷ ns) f.1 (h.0, r) (join m ms ns f.0 h.1)
  where
    join :
        (m : Migration) (ms ns : List Migration)
        → All (λ p. p.version ≤ m.version) ms
        → All (λ p. All (λ n. p.version ≤ n.version) ns) ms
        → All (λ p. All (λ n. p.version ≤ n.version) (m ∷ ns)) ms
    join m [] ns a b = tt
    join m (p ∷ ps) ns a b = ((a.0, b.0), join m ps ns a.1 b.1)

sink-perm : (m : Migration) (ms : List Migration) → Perm (sink m ms) (m ∷ ms)
unfolding sink
sink-perm m [] = Perm.refl (m ∷ [])
sink-perm m (p ∷ ps) =
    if_cases (λ l. Perm l (m ∷ p ∷ ps)) (ltb m.version p.version)
      (λ less. Perm.trans (Perm.cons p (sink-perm m ps)) (Perm.swap m p ps))
      (λ more. Perm.refl (m ∷ p ∷ ps))

sink_all-perm : (before ms : List Migration) → Perm (sink_all before ms) (ms ++ before)
unfolding sink_all
sink_all-perm before [] = Perm.refl before
sink_all-perm before (m ∷ ms) =
    Perm.trans (sink_all-perm (sink m before) ms)
      (Perm.trans (Perm.append (Perm.refl ms) (sink-perm m before)) (perm_middle ms before))

-- The migrations are taken by rising version, each as often as it is given.
pub sort_migrations_lem :
    (ms : List Migration) → IsRising (sort_migrations ms) × Perm (sort_migrations ms) ms
unfolding sort_migrations
sort_migrations_lem ms = (
  reverse_aux-IsRising (sink_all [] ms) [] (sink_all-IsFalling [] ms tt) tt
      (nothing (sink_all [] ms)),
  subst (Perm (reverse (sink_all [] ms))) (append-nil ms)
      (Perm.trans (reverse_perm (sink_all [] ms)) (sink_all-perm [] ms)),
)
  where
    nothing :
        (ms : List Migration)
        → All (λ (m : Migration). All (λ (n : Migration). m.version ≤ n.version) []) ms
    nothing [] = tt
    nothing (m ∷ ms) = (tt, nothing ms)

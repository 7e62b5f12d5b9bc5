-- ===== src/Telemetry/Receiver/Limit.antt =====
-- The limit on connections of internal/pipeline/telemetry/receiver.go.
use openspace_os_core.Base.{ℕ, zero, suc, ◌+◌, arith, subst}
use openspace_os_core.Telemetry.Receiver.{Connections, accept, enter, Steps, stay, then}

abbrev pub at : ℕ → ℕ → ℕ → Connections
at m s a = record { max_conns = m; starting = s; active = a; refused = 0 }

followed_by : {a b c : Connections} → Steps a b → Steps b c → Steps a c
followed_by stay rest = rest
followed_by (then s ss) rest = then s (followed_by ss rest)

accept_many : (m n s : ℕ) → Steps (at (suc m) s 0) (at (suc m) (n + s) 0)
accept_many m zero s = subst (λ k. Steps (at (suc m) s 0) (at (suc m) k 0)) (omega arith) stay
accept_many m (suc n) s = then (accept (ground arith)) (
    subst (λ k. Steps (at (suc m) (suc s) 0) (at (suc m) k 0)) (omega arith)
      (accept_many m n (suc s)))

enter_many : (m n a : ℕ) → Steps (at m n a) (at m 0 (n + a))
enter_many m zero a = subst (λ k. Steps (at m 0 a) (at m 0 k)) (omega arith) stay
enter_many m (suc n) a =
    then enter
      (subst (λ k. Steps (at m n (suc a)) (at m 0 k)) (omega arith) (enter_many m n (suc a)))

-- Whatever the limit, as long as it is not 0, any number of connections can be active at once: those
-- that were accepted before their goroutines counted them.
pub Steps-beyond_limit : (m n : ℕ) → Steps (at (suc m) 0 0) (at (suc m) 0 (n + 0))
Steps-beyond_limit m n = followed_by (accept_many m n 0) (
    subst (λ k. Steps (at (suc m) k 0) (at (suc m) 0 (n + 0))) (omega arith)
      (enter_many (suc m) n 0))

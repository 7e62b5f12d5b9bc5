-- ===== src/Graph/Dialect.antt =====
-- The placeholders of SQL text: internal/core/dialect.go. A text counts its characters, which are its
-- bytes in ASCII; the buffer of `writeInt` has twenty places, one for each digit.
use native.Mathlib.Numerals.{unary_clauses}
use openspace_os_core.Base.{
  ◌-◌, Bool-cases, inl, inr, ℕ, zero, suc, ◌+◌, ◌*◌, ◌/◌, ◌%◌, ◌<◌, ◌^◌, ◌==◌, true, false, List,
  [], ◌∷◌, ◌++◌, ◌≡◌, refl, sym, ap, arith, if◌then◌else◌, All,
}

-- The loop of `writeInt`, for the places that are left: the digits found, before those that follow.
unfoldable pub digits : ℕ → ℕ → List ℕ → List ℕ
digits zero v out = out
digits (suc places) v out = elim (v == 0) [
  | true ↦ out
  | false ↦ digits places (v / 10) ((b'0' + v % 10) ∷ out)
]

unfoldable pub write_int : ℕ → List ℕ
unfolding digits
write_int v = if v == 0 then b'0' ∷ [] else digits 20 v []

-- The loop of `rebindPostgres` over the bytes, after so many placeholders.
unfoldable pub rebind_from : ℕ → List ℕ → List ℕ
unfolding write_int
rebind_from n [] = []
rebind_from n (c ∷ cs) = elim (c == b'?') [
  | true ↦ b'$' ∷ (write_int (suc n) ++ rebind_from (suc n) cs)
  | false ↦ c ∷ rebind_from n cs
]

unfoldable pub rebind_postgres : List ℕ → List ℕ
rebind_postgres sql = rebind_from 0 sql

-- The number that digits stand for, after what was read before them.
abbrev pub value : ℕ → List ℕ → ℕ
value n [] = n
value n (c ∷ cs) = value (10 * n + (c - b'0')) cs

digits-value :
    (places v : ℕ) (out : List ℕ) → v < 10 ^ places → value 0 (digits places v out) ≡ value v out
unfolding digits
digits-value zero v out small =
    let none_left : v ≡ 0 = omega arith in ap (λ n. value n out) (sym none_left)
digits-value (suc p) v out small = elim (Bool-cases (v == 0)) [
  | inl e ↦ ground (arith, e)
  | inr e ↦
      let bound : v < 10 ^ p * 10 = simp unary_clauses at small in
      let less : v / 10 < 10 ^ p = omega arith in
      let same : 10 * (v / 10) + (b'0' + v % 10 - b'0') ≡ v = omega arith in
      let rest = digits-value p (v / 10) ((b'0' + v % 10) ∷ out) less in
      ground (arith, e, rest, ap (λ n. value n out) same)
]

-- What `writeInt` writes is read back as the number, for every number of at most twenty digits.
pub write_int-value : (v : ℕ) → v < 10 ^ 20 → value 0 (write_int v) ≡ v
unfolding write_int
write_int-value v small = ground (arith, digits-value 20 v [] small)

rebind_from_plain :
    (n : ℕ) (cs : List ℕ) → All (λ c. (c == b'?') ≡ false) cs → rebind_from n cs ≡ cs
unfolding rebind_from
rebind_from_plain n [] h = refl
rebind_from_plain n (c ∷ cs) (e, h) = ground (arith, e, rebind_from_plain n cs h)

-- A text without a question mark is left as it is.
pub rebind_postgres_plain :
    (sql : List ℕ) → All (λ c. (c == b'?') ≡ false) sql → rebind_postgres sql ≡ sql
unfolding rebind_postgres
rebind_postgres_plain sql h = rebind_from_plain 0 sql h

-- ===== src/Usage/Tally.antt =====
-- What a batch of metered calls adds up to (`aggregate` of internal/usage/collector.go).
use native.Mathlib.Nat.{add-mod, mod-eq_of_lt, mod-lt, mod-le, mul-mod_right, div-add-mod}
use openspace_os_core.Base.{
  eq_refl, ℕ, ◌+◌, ◌-◌, ◌*◌, ◌/◌, ◌%◌, ◌≤◌, ◌<◌, ◌==◌, ltb, leb, Bool, ◌&&◌, str_eq, true, false,
  Option, none, some, List, [], ◌∷◌, ◌≡◌, ◌∙◌, refl, sym, ap, arith, eq_iff, if◌then◌else◌,
  Bool-cases, inl, inr,
}
use openspace_os_core.Usage.{
  UsageRecord, BucketKey, Bucket, same_key, add64, key_of, add_count, aggregate_from, aggregate,
}

abbrev pub find_count : BucketKey → List Bucket → Option ℕ
find_count k [] = none
find_count k ((j, m) ∷ agg) = if same_key j k then some m else find_count k agg

abbrev pub plus : Option ℕ → ℕ → Option ℕ
plus none n = some (add64 0 n)
plus (some m) n = some (add64 m n)

-- The record is of the key's tenant, client, endpoint, operation and unit, and its time lies in the
-- key's bucket, which is as long as the interval and starts at a multiple of it.
abbrev pub is_in : ℕ → UsageRecord → BucketKey → Bool
is_in interval r k =
    str_eq r.tenant_id k.tenant
    && (str_eq r.client_id k.client
        && (str_eq r.endpoint k.endpoint
            && (str_eq r.operation k.operation
                && (str_eq r.unit k.unit
                    && (k.bucket_start % interval == 0
                        && (leb k.bucket_start r.at
                            && (ltb r.at k.bucket_end
                                && k.bucket_end == k.bucket_start + interval)))))))

-- The sum of the records that belong to this key, after what there was.
abbrev pub sum_in : ℕ → BucketKey → Option ℕ → List UsageRecord → Option ℕ
sum_in interval k o [] = o
sum_in interval k o (r ∷ rs) =
    sum_in interval k (if is_in interval r k then plus o r.count else o) rs

aligned : (i a : ℕ) → (a - a % i) % i ≡ 0
aligned i a =
    let whole : a - a % i ≡ i * (a / i) = omega (arith, div-add-mod a i) in
    ap (λ x. x % i) whole ∙ mul-mod_right i (a / i)

only_start : (i a s : ℕ) → s % i ≡ 0 → s ≤ a → a < s + i → a - a % i ≡ s
only_start i a s e below above =
    let d : ℕ = a - s in
    let small : d % i ≡ d = mod-eq_of_lt (omega arith) in
    let sum : s % i + d % i ≡ d = omega (arith, e, small) in
    let whole : (s + d) % i ≡ d = add-mod s d i ∙ (ap (λ x. x % i) sum ∙ small) in
    let here : a ≡ s + d = omega arith in
    let left : a % i ≡ d = ap (λ x. x % i) here ∙ whole in omega (arith, left)

same_slot :
    (i a s e : ℕ)
    → 0 < i
    → (a - a % i == s && (a - a % i) + i == e)
      ≡ (s % i == 0 && (leb s a && (ltb a e && e == s + i)))
same_slot i a s e some_time = elim (Bool-cases (a - a % i == s)) [
  | inl h ↦ ground (arith, h, aligned i a, mod-lt a some_time, mod-le a i)
  | inr h ↦ ground (arith, h, only_start i a s)
]

-- The key of a record, against the description of the keys that it belongs to.
same_key-is_in :
    (interval : ℕ) (r : UsageRecord) (k : BucketKey)
    → 0 < interval
    → same_key (key_of interval r) k ≡ is_in interval r k
unfolding same_key
same_key-is_in interval r k some_time =
    ap
      (λ x.
        str_eq r.tenant_id k.tenant
        && (str_eq r.client_id k.client
            && (str_eq r.endpoint k.endpoint
                && (str_eq r.operation k.operation && (str_eq r.unit k.unit && x)))))
      (same_slot interval r.at k.bucket_start k.bucket_end some_time)

-- The sum of the records with this key, after what there was.
abbrev sum_of : ℕ → BucketKey → Option ℕ → List UsageRecord → Option ℕ
sum_of interval k o [] = o
sum_of interval k o (r ∷ rs) =
    sum_of interval k (if same_key (key_of interval r) k then plus o r.count else o) rs

same_key-eq : (a b : BucketKey) → same_key a b ≡ true → a ≡ b
unfolding same_key
same_key-eq a b h = ground (
  arith,
  eq_iff a.tenant b.tenant,
  eq_iff a.client b.client,
  eq_iff a.endpoint b.endpoint,
  eq_iff a.operation b.operation,
  eq_iff a.unit b.unit,
)

same_key_refl : (a : BucketKey) → same_key a a ≡ true
unfolding same_key
same_key_refl a = ground (
  arith,
  eq_refl a.tenant,
  eq_refl a.client,
  eq_refl a.endpoint,
  eq_refl a.operation,
  eq_refl a.unit,
)

same_key-sym : (a b : BucketKey) → same_key a b ≡ true → same_key b a ≡ true
same_key-sym a b h = ap (λ x. same_key b x) (same_key-eq a b h) ∙ same_key_refl b

same_key-false :
    (i j k : BucketKey) → same_key i j ≡ false → same_key i k ≡ true → same_key j k ≡ false
same_key-false i j k e h = elim (Bool-cases (same_key j k)) [
  | inl f ↦
      let same : i ≡ j = same_key-eq i k h ∙ sym (same_key-eq j k f) in
      let back : same_key i j ≡ true = ap (λ x. same_key x j) same ∙ same_key_refl j in
      absurd (ground arith)
  | inr f ↦ f
]

find_count-add_count :
    (k j : BucketKey) (n : ℕ) (agg : List Bucket)
    → find_count k (add_count j n agg)
      ≡ (if same_key j k then plus (find_count k agg) n else find_count k agg)
unfolding add_count
find_count-add_count k j n [] = refl
find_count-add_count k j n ((i, m) ∷ agg) = elim (Bool-cases (same_key i j)) [
  | inl e ↦
      let same : same_key i k ≡ same_key j k = ap (λ x. same_key x k) (same_key-eq i j e) in
      ground (arith, e, same)
  | inr e ↦ ground (arith, e, find_count-add_count k j n agg, same_key-false i j k e)
]

find_count-aggregate_from :
    (interval : ℕ) (k : BucketKey) (agg : List Bucket) (rs : List UsageRecord)
    → find_count k (aggregate_from interval agg rs) ≡ sum_of interval k (find_count k agg) rs
unfolding aggregate_from
find_count-aggregate_from interval k agg [] = refl
find_count-aggregate_from interval k agg (r ∷ rs) =
    find_count-aggregate_from interval k (add_count (key_of interval r) r.count agg) rs
    ∙ ap (λ o. sum_of interval k o rs) (find_count-add_count k (key_of interval r) r.count agg)

abbrev pub AreDistinct : List Bucket → Type 0
AreDistinct [] = Unit
AreDistinct ((k, n) ∷ agg) = (find_count k agg ≡ none) × AreDistinct agg

add_count-AreDistinct :
    (k : BucketKey) (n : ℕ) (agg : List Bucket) → AreDistinct agg → AreDistinct (add_count k n agg)
unfolding add_count
add_count-AreDistinct k n [] h = (refl, tt)
add_count-AreDistinct k n ((j, m) ∷ agg) (new, h) = elim (Bool-cases (same_key j k)) [
  | inl e ↦ ground (arith, e, new, h)
  | inr e ↦ ground (
    arith,
    e,
    new,
    find_count-add_count j k n agg,
    add_count-AreDistinct k n agg h,
    same_key-sym k j,
  )
]

aggregate_from-AreDistinct :
    (interval : ℕ) (agg : List Bucket) (rs : List UsageRecord)
    → AreDistinct agg
    → AreDistinct (aggregate_from interval agg rs)
unfolding aggregate_from
aggregate_from-AreDistinct interval agg [] h = h
aggregate_from-AreDistinct interval agg (r ∷ rs) h =
    aggregate_from-AreDistinct interval (add_count (key_of interval r) r.count agg) rs
      (add_count-AreDistinct (key_of interval r) r.count agg h)

sum_of-sum_in :
    (interval : ℕ) (k : BucketKey) (o : Option ℕ) (rs : List UsageRecord)
    → 0 < interval
    → sum_of interval k o rs ≡ sum_in interval k o rs
sum_of-sum_in interval k o [] some_time = refl
sum_of-sum_in interval k o (r ∷ rs) some_time =
    ap (λ x. sum_of interval k (if x then plus o r.count else o) rs)
      (same_key-is_in interval r k some_time)
    ∙ sum_of-sum_in interval k (if is_in interval r k then plus o r.count else o) rs some_time

-- For an interval that is not 0, no key has two buckets, and the bucket of a key counts the sum, modulo
-- 2 ^ 64, of the records of its tenant, client, endpoint, operation and unit whose times lie in its
-- slot, one interval from a multiple of the interval on; there is no bucket where there is no such record.
pub aggregate_lem :
    (interval : ℕ) (rs : List UsageRecord)
    → 0 < interval
    → AreDistinct (aggregate interval rs)
      × ((k : BucketKey) → find_count k (aggregate interval rs) ≡ sum_in interval k none rs)
unfolding aggregate
aggregate_lem interval rs some_time = (
  aggregate_from-AreDistinct interval [] rs tt,
  λ k. find_count-aggregate_from interval k [] rs ∙ sum_of-sum_in interval k none rs some_time,
)

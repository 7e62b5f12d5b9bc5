-- ===== src/Base/Sort.antt =====
-- Go's sort.Slice by a key: a sorted permutation. The model keeps entries with equal keys in their
-- order; Go promises no order among them.
use Prim.Native.Nat.{ℕ, zero, suc, ◌≤◌}
use mathlib.Core.Path.{◌≡◌, refl}
use mathlib.Core.List.{List, [], ◌∷◌, Perm}
use mathlib.Core.List.Perm
use native.Mathlib.Omega.{arith}
use openspace_os_core.Base.Tests.{ltb, if◌then◌else◌}
use openspace_os_core.Base.Lists.{length, All, All-take, take, drop}

module _ {ℓ} {A : Type ℓ} (key : A → ℕ) where
  abbrev pub insert_by : A → List A → List A
  insert_by a [] = a ∷ []
  insert_by a (x ∷ xs) = if ltb (key x) (key a) then x ∷ insert_by a xs else a ∷ x ∷ xs

  abbrev pub sort_by : List A → List A
  sort_by [] = []
  sort_by (x ∷ xs) = insert_by x (sort_by xs)

  abbrev pub IsSortedBy : List A → Type 0
  IsSortedBy [] = Unit
  IsSortedBy (x ∷ xs) = All (λ y. key x ≤ key y) xs × IsSortedBy xs

module _ {ℓ} {A : Type ℓ} where
  All-insert_by {κ} :
      (key : A → ℕ) (P : A → Type κ) (a : A) (xs : List A)
      → P a
      → All P xs
      → All P (insert_by key a xs)
  All-insert_by key P a [] pa h = (pa, tt)
  All-insert_by key P a (x ∷ xs) pa h = ground (arith, All-insert_by key P a xs pa h.1)

  pub All-sort_by {κ} :
      (key : A → ℕ) (P : A → Type κ) (xs : List A) → All P xs → All P (sort_by key xs)
  All-sort_by key P [] h = h
  All-sort_by key P (x ∷ xs) h =
      All-insert_by key P x (sort_by key xs) h.0 (All-sort_by key P xs h.1)

  All-le_trans :
      (key : A → ℕ) (n m : ℕ) (xs : List A)
      → n ≤ m
      → All (λ y. m ≤ key y) xs
      → All (λ y. n ≤ key y) xs
  All-le_trans key n m [] le h = tt
  All-le_trans key n m (x ∷ xs) le h = (omega arith, All-le_trans key n m xs le h.1)

  insert_by-IsSortedBy :
      (key : A → ℕ) (a : A) (xs : List A) → IsSortedBy key xs → IsSortedBy key (insert_by key a xs)
  insert_by-IsSortedBy key a [] h = (tt, tt)
  insert_by-IsSortedBy key a (x ∷ xs) h = ground (
    arith,
    insert_by-IsSortedBy key a xs h.1,
    All-insert_by key (λ y. key x ≤ key y) a xs,
    All-le_trans key (key a) (key x) xs,
  )

  pub sort_by-IsSortedBy : (key : A → ℕ) (xs : List A) → IsSortedBy key (sort_by key xs)
  sort_by-IsSortedBy key [] = tt
  sort_by-IsSortedBy key (x ∷ xs) =
      insert_by-IsSortedBy key x (sort_by key xs) (sort_by-IsSortedBy key xs)

  insert_by-perm : (key : A → ℕ) (a : A) (xs : List A) → Perm (insert_by key a xs) (a ∷ xs)
  insert_by-perm key a [] = Perm.refl (a ∷ [])
  insert_by-perm key a (x ∷ xs) =
      let step = Perm.trans (Perm.cons x (insert_by-perm key a xs)) (Perm.swap a x xs) in
      ground (arith, step, Perm.refl (a ∷ x ∷ xs))

  pub sort_by-perm : (key : A → ℕ) (xs : List A) → Perm (sort_by key xs) xs
  sort_by-perm key [] = Perm.refl []
  sort_by-perm key (x ∷ xs) =
      Perm.trans (insert_by-perm key x (sort_by key xs)) (Perm.cons x (sort_by-perm key xs))

  length-insert_by :
      (key : A → ℕ) (a : A) (xs : List A) → length (insert_by key a xs) ≡ suc (length xs)
  length-insert_by key a [] = refl
  length-insert_by key a (x ∷ xs) = ground (arith, length-insert_by key a xs)

  pub length-sort_by : (key : A → ℕ) (xs : List A) → length (sort_by key xs) ≡ length xs
  length-sort_by key [] = refl
  length-sort_by key (x ∷ xs) =
      omega (arith, length-insert_by key x (sort_by key xs), length-sort_by key xs)

  pub drop-IsSortedBy :
      (key : A → ℕ) (n : ℕ) (xs : List A) → IsSortedBy key xs → IsSortedBy key (drop n xs)
  drop-IsSortedBy key zero xs h = h
  drop-IsSortedBy key (suc n) [] h = h
  drop-IsSortedBy key (suc n) (x ∷ xs) h = drop-IsSortedBy key n xs h.1

  pub take-IsSortedBy :
      (key : A → ℕ) (n : ℕ) (xs : List A) → IsSortedBy key xs → IsSortedBy key (take n xs)
  take-IsSortedBy key zero xs h = tt
  take-IsSortedBy key (suc n) [] h = h
  take-IsSortedBy key (suc n) (x ∷ xs) h = (All-take _ n xs h.0, take-IsSortedBy key n xs h.1)

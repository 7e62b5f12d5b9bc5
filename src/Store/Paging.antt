-- ===== src/Store/Paging.antt =====
-- Offset and limit of `Query` (internal/core/event_store_memory.go).
use native.Mathlib.Decide.{dec_le}
use native.Mathlib.Nat.{zero-add}
use openspace_os_core.Base.{
  ℤ, ℕ, suc, ◌+◌, ◌*◌, ◌≤◌, ◌≡◌, refl, ◌∙◌, ap, sym, pos, List, [], ◌∷◌, ◌++◌, arith, length, take,
  drop, take_of_length-le, take-append-drop, zero,
}
use openspace_os_core.Store.{page, cut}

module _ {A : Type 0} where
  drop_all : (n : ℕ) (xs : List A) → length xs ≤ n → drop n xs ≡ []
  drop_all zero [] h = refl
  drop_all zero (x ∷ xs) h = absurd (omega arith)
  drop_all (suc n) [] h = refl
  drop_all (suc n) (x ∷ xs) h = drop_all n xs (omega arith)

  cut-nil : (l : ℤ) → cut {A = A} l [] ≡ []
  cut-nil l = ground arith

  pub page-cut :
      (offset : ℕ) (l : ℤ) (xs : List A) → page (pos offset) l xs ≡ cut l (drop offset xs)
  unfolding page
  page-cut zero l [] = sym (cut-nil l)
  page-cut zero l (x ∷ xs) = ground arith
  page-cut (suc n) l xs = elim (dec_le (length xs) (suc n)) [
    | yes past ↦ ground (arith, drop_all (suc n) xs, cut-nil l)
    | no within ↦ ground arith
  ]

  pub cut-suc : (limit : ℕ) (ys : List A) → cut (pos (suc limit)) ys ≡ take (suc limit) ys
  cut-suc limit ys = ground (arith, take_of_length-le (suc limit) ys)

  -- Without a limit a page is the rest of the list from the offset on, also past its end.
  pub page-unlimited : (offset : ℕ) (xs : List A) → page (pos offset) (pos 0) xs ≡ drop offset xs
  page-unlimited offset xs = page-cut offset (pos 0) xs ∙ ground arith

  -- With a limit it is the first entries of that rest.
  pub page-limited :
      (offset limit : ℕ) (xs : List A)
      → page (pos offset) (pos (suc limit)) xs ≡ take (suc limit) (drop offset xs)
  page-limited offset limit xs =
      page-cut offset (pos (suc limit)) xs ∙ cut-suc limit (drop offset xs)

  -- `n` pages of `limit` entries each, from the offset on.
  pub pages : ℕ → ℕ → ℕ → List A → List A
  pages zero offset limit xs = []
  pages (suc n) offset limit xs =
      page (pos offset) (pos limit) xs ++ pages n (offset + limit) limit xs

  drop-nil : (n : ℕ) → drop {A = A} n [] ≡ []
  drop-nil zero = refl
  drop-nil (suc n) = refl

  drop-drop : (m n : ℕ) (xs : List A) → drop n (drop m xs) ≡ drop (m + n) xs
  drop-drop zero n xs = rw zero-add
  drop-drop (suc m) n [] = drop-nil n ∙ sym (drop-nil (suc m + n))
  drop-drop (suc m) n (x ∷ xs) =
      let e : suc m + n ≡ suc (m + n) = omega arith in
      drop-drop m n xs ∙ sym (ap (λ k. drop k (x ∷ xs)) e)

  pages-drop :
      (n offset limit : ℕ) (xs : List A)
      → length xs ≤ offset + n * suc limit
      → pages n offset (suc limit) xs ≡ drop offset xs
  unfolding pages
  pages-drop zero offset limit xs h = sym (drop_all offset xs (omega arith))
  pages-drop (suc n) offset limit xs h =
      ap (λ ys. ys ++ pages n (offset + suc limit) (suc limit) xs) (page-limited offset limit xs)
      ∙ (ap (◌++◌ (take (suc limit) (drop offset xs))) (
            pages-drop n (offset + suc limit) limit xs (omega arith)
            ∙ sym (drop-drop offset (suc limit) xs))
          ∙ take-append-drop (suc limit) (drop offset xs))

  -- Pages of a positive size, read one after the other from the start, give every entry once and in
  -- order as soon as they are enough to reach the end.
  pub pages_lem :
      (n limit : ℕ) (xs : List A) → length xs ≤ n * suc limit → pages n 0 (suc limit) xs ≡ xs
  pages_lem n limit xs h = pages-drop n 0 limit xs (omega arith)

-- ===== src/Graph/Traversal/Rows.antt =====
-- Lists of ids and of relationships, as far as `Traverse` is concerned.
use openspace_os_core.Base.{
  ◌<◌, String, Bool, true, List, [], ◌∷◌, ◌++◌, ◌≡◌, refl, sym, subst, arith, str_eq, eq_iff,
  keep_if, count_if, if_cases, ◌⊎◌,
}
use openspace_os_core.Event.Schema.{contains}
use openspace_os_core.Model.{Relationship}
use openspace_os_core.Graph.Rules.{IsRow, first, next, Rearranges}
use openspace_os_core.Graph.Consistent.{has_rel, DistinctRels}

abbrev pub In : String → List String → Type 0
In x xs = contains x xs ≡ true

pub In-snoc : (x y : String) (xs : List String) → In x xs → In x (xs ++ (y ∷ []))
unfolding contains
In-snoc x y [] h = absurd (ground arith)
In-snoc x y (z ∷ zs) h = ground (arith, h, In-snoc x y zs)

pub In-snoc_inv : (x y : String) (xs : List String) → In x (xs ++ (y ∷ [])) → In x xs ⊎ (y ≡ x)
unfolding contains
In-snoc_inv x y [] h = ground (arith, h, eq_iff y x)
In-snoc_inv x y (z ∷ zs) h = ground (arith, h, In-snoc_inv x y zs)

pub In-last : (x : String) (xs : List String) → In x (xs ++ (x ∷ []))
unfolding contains
In-last x [] = ground (arith, eq_iff x x)
In-last x (z ∷ zs) = ground (arith, In-last x zs)

pub has_rel-snoc :
    (x : String) (r : Relationship) (rs : List Relationship)
    → has_rel x rs ≡ true
    → has_rel x (rs ++ (r ∷ [])) ≡ true
has_rel-snoc x r [] h = absurd (ground arith)
has_rel-snoc x r (s ∷ rs) h = ground (arith, h, has_rel-snoc x r rs)

pub has_rel-last :
    (r : Relationship) (rs : List Relationship) → has_rel r.rel_id (rs ++ (r ∷ [])) ≡ true
has_rel-last r [] = ground (arith, eq_iff r.rel_id r.rel_id)
has_rel-last r (s ∷ rs) = ground (arith, has_rel-last r rs)

row-has_rel : {r : Relationship} {rs : List Relationship} → IsRow r rs → has_rel r.rel_id rs ≡ true
row-has_rel {r} first = ground (arith, eq_iff r.rel_id r.rel_id)
row-has_rel (next h) = ground (arith, row-has_rel h)

-- Where ids differ, rows with the same id are the same.
pub same_row :
    (r s : Relationship) (rs : List Relationship)
    → DistinctRels rs
    → IsRow r rs
    → IsRow s rs
    → r.rel_id ≡ s.rel_id
    → r ≡ s
same_row r s [] d h k e = elim h [ ]
same_row r s (x ∷ rs) (new, d) first first e = refl
same_row r s (x ∷ rs) (new, d) first (next k) e =
    absurd (ground (arith, new, e, row-has_rel k, eq_iff r.rel_id s.rel_id))
same_row r s (x ∷ rs) (new, d) (next h) first e = absurd (ground (arith, new, e, row-has_rel h))
same_row r s (x ∷ rs) (new, d) (next h) (next k) e = same_row r s rs d h k e

module _ (id : String) where
  has_rel-count :
      (rs : List Relationship) → has_rel id rs ≡ true → 0 < count_if (λ r. str_eq r.rel_id id) rs
  has_rel-count [] h = absurd (ground arith)
  has_rel-count (r ∷ rs) h = ground (arith, h, has_rel-count rs)

  count-has_rel :
      (rs : List Relationship) → 0 < count_if (λ r. str_eq r.rel_id id) rs → has_rel id rs ≡ true
  count-has_rel [] h = absurd (ground arith)
  count-has_rel (r ∷ rs) h = ground (arith, h, count-has_rel rs)

  pub sorted-has_rel :
      {by_age : List Relationship → List Relationship}
      → Rearranges by_age
      → (rs : List Relationship) → has_rel id rs ≡ true
      → has_rel id (by_age rs) ≡ true
  sorted-has_rel {by_age} sorts rs h =
      count-has_rel (by_age rs)
        (subst (λ n. 0 < n) (sym (sorts.counts (λ r. str_eq r.rel_id id) rs)) (has_rel-count rs h))

pub kept-has_rel :
    (p : Relationship → Bool) {r : Relationship} {rs : List Relationship}
    → IsRow r rs
    → p r ≡ true
    → has_rel r.rel_id (keep_if p rs) ≡ true
kept-has_rel p {r} (first {rs}) e =
    if_cases (λ xs. has_rel r.rel_id xs ≡ true) (p r)
      (λ _. ground (arith, eq_iff r.rel_id r.rel_id)) (λ f. absurd (ground (arith, e, f)))
kept-has_rel p {r} (next {s} {rs} h) e =
    if_cases (λ xs. has_rel r.rel_id xs ≡ true) (p s) (λ _. ground (arith, kept-has_rel p h e))
      (λ _. kept-has_rel p h e)

-- ===== src/Graph/Service/Deletion.antt =====
-- `DeleteNode` of internal/core/kg_service.go, in a transaction and without one.
use openspace_os_core.Base.{
  keep_if-All, eq_refl, String, Bool, false, not, ◌&&◌, List, [], ◌∷◌, ◌≡◌, ◌∙◌, ap, refl, sym,
  arith, str_eq, eq_iff, All, keep_if, count_if, ltb, keep_if-keep_if, keep_if_agree, All-of,
}
use openspace_os_core.Model.{Relationship}
use openspace_os_core.Graph.Rules.{Rearranges}
use openspace_os_core.Graph.Consistent.{DistinctRels, has_rel}

has_rel-count :
    (k : String) (rs : List Relationship)
    → has_rel k rs ≡ ltb 0 (count_if (λ r. str_eq r.rel_id k) rs)
has_rel-count k [] = refl
has_rel-count k (r ∷ rs) = ground (arith, has_rel-count k rs)

pub has_rel-arranged :
    {by_age : List Relationship → List Relationship}
    → Rearranges by_age
    → (k : String) (rs : List Relationship) → has_rel k (by_age rs) ≡ has_rel k rs
has_rel-arranged {by_age} h k rs =
    has_rel-count k (by_age rs) ∙ (ap (ltb 0) (h.counts _ rs) ∙ sym (has_rel-count k rs))

-- Among rows with distinct ids, a row's id is among those of the chosen rows exactly when it is chosen.
abbrev pub Chosen : (Relationship → Bool) → List Relationship → Relationship → Type 0
Chosen p chosen r = has_rel r.rel_id chosen ≡ p r

Chosen-more :
    (p : Relationship → Bool) (x : Relationship) (xs rs : List Relationship)
    → has_rel x.rel_id rs ≡ false
    → All (Chosen p (keep_if p xs)) rs
    → All (Chosen p (keep_if p (x ∷ xs))) rs
Chosen-more p x xs [] fresh h = tt
Chosen-more p x xs (r ∷ rs) fresh (e, h) = (
  ground (arith, eq_iff x.rel_id r.rel_id, eq_iff r.rel_id x.rel_id),
  Chosen-more p x xs rs (ground arith) h,
)

has_rel-keep_if :
    (k : String) (p : Relationship → Bool) (rs : List Relationship)
    → has_rel k rs ≡ false
    → has_rel k (keep_if p rs) ≡ false
has_rel-keep_if k p [] h = refl
has_rel-keep_if k p (r ∷ rs) h = ground (arith, has_rel-keep_if k p rs)

pub All-Chosen :
    (p : Relationship → Bool) (xs : List Relationship)
    → DistinctRels xs
    → All (Chosen p (keep_if p xs)) xs
All-Chosen p [] h = tt
All-Chosen p (x ∷ xs) (fresh, h) = (
  ground (arith, has_rel-keep_if x.rel_id p xs, eq_refl x.rel_id),
  Chosen-more p x xs xs fresh (All-Chosen p xs h),
)

-- The rows that are left when each of the listed ones has been deleted by its id.
unfoldable pub minus_all : List Relationship → List Relationship → List Relationship
minus_all [] xs = xs
minus_all (r ∷ rs) xs = minus_all rs (keep_if (λ x. not (str_eq x.rel_id r.rel_id)) xs)

pub minus_all-keep_if :
    (rs xs : List Relationship) → minus_all rs xs ≡ keep_if (λ x. not (has_rel x.rel_id rs)) xs
unfolding minus_all
minus_all-keep_if [] xs =
    sym (keep_if-All (λ x. not (has_rel x.rel_id [])) xs (All-of xs (λ x. refl)))
minus_all-keep_if (r ∷ rs) xs =
    minus_all-keep_if rs _
    ∙ (keep_if-keep_if _ _ xs
        ∙ keep_if_agree (λ x. not (str_eq x.rel_id r.rel_id) && not (has_rel x.rel_id rs)) _ xs
            (All-of xs (λ x. ground (arith, eq_iff x.rel_id r.rel_id, eq_iff r.rel_id x.rel_id))))

-- Deleting the rows that a query chose leaves the rows that it did not choose.
minus_all-chosen :
    {by_age : List Relationship → List Relationship}
    → Rearranges by_age
    → (p : Relationship → Bool) (xs : List Relationship) → DistinctRels xs
    → minus_all (by_age (keep_if p xs)) xs ≡ keep_if (λ x. not (p x)) xs
minus_all-chosen {by_age} h p xs d =
    minus_all-keep_if (by_age (keep_if p xs)) xs
    ∙ keep_if_agree _ _ xs (agree xs (All-Chosen p xs d))
  where
    agree :
        (rs : List Relationship)
        → All (Chosen p (keep_if p xs)) rs
        → All (λ x. not (has_rel x.rel_id (by_age (keep_if p xs))) ≡ not (p x)) rs
    agree [] g = tt
    agree (r ∷ rs) (e, g) = (ap not (has_rel-arranged h r.rel_id (keep_if p xs) ∙ e), agree rs g)

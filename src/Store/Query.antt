-- ===== src/Store/Query.antt =====
-- What `Query` returns (internal/core/event_store_memory.go).
use mathlib.Core.List.{Perm}
use openspace_os_core.Base.{
  ◌∙◌, inr, ◌&&◌, inl, if_of_false, not, ap, Bool-cases, ℕ, ◌≤◌, ◌≡◌, refl, ◌≢◌, ◌↔◌, String, true,
  false, Option, none, some, List, [], ◌∷◌, map, arith, keep_if, All, All-sort_by, IsSortedBy,
  sort_by-IsSortedBy, sort_by-perm, str_eq, eq_iff, pos, take, drop, All-take, All-drop,
  take-IsSortedBy, drop-IsSortedBy, suc,
}
use openspace_os_core.Event.{Event}
use openspace_os_core.Store.{
  before_start, after_end, QueryOptions, MemoryEventStore, ok, match_query, has_type, is_empty,
  matching, query, page,
}
use openspace_os_core.Store.Paging.{page-limited}

-- The conditions of the options on one event.
pub record Matches (o : QueryOptions) (e : Event) : Type 0 where
  pub type : o.event_types ≢ [] → has_type e.event_type o.event_types ≡ true
  pub source : o.source_node_id ≢ "" → e.source_node_id ≡ o.source_node_id
  pub from : (t : ℕ) → o.start_time ≡ some t → t ≤ e.timestamp
  pub until : (t : ℕ) → o.end_time ≡ some t → e.timestamp ≤ t

type_passes :
    (t : String) (ts : List String)
    → (ts ≢ [] → has_type t ts ≡ true)
    → (not (is_empty ts) && not (has_type t ts)) ≡ false
type_passes t [] h = refl
type_passes t (u ∷ us) h = let e = h (λ n. cc) in ground arith

source_passes : (s t : String) → (s ≢ "" → t ≡ s) → (not (str_eq s "") && not (str_eq t s)) ≡ false
source_passes s t h = elim (Bool-cases (str_eq s "")) [
  | inl blank ↦ ground arith
  | inr set ↦ let e = h (λ n. ground (arith, eq_iff s "")) in ground (arith, eq_iff t s)
]

start_passes : (o : Option ℕ) (t : ℕ) → ((u : ℕ) → o ≡ some u → u ≤ t) → before_start o t ≡ false
start_passes none t h = refl
start_passes (some u) t h = let le = h u refl in ground arith

end_passes : (o : Option ℕ) (t : ℕ) → ((u : ℕ) → o ≡ some u → t ≤ u) → after_end o t ≡ false
end_passes none t h = refl
end_passes (some u) t h = let le = h u refl in ground arith

-- An event matches exactly when it meets every condition that the options set.
pub match_query_iff : (o : QueryOptions) (e : Event) → (match_query o e ≡ true) ↔ Matches o e
unfolding match_query
match_query_iff o e = (meets, passes)
  where
    meets : match_query o e ≡ true → Matches o e
    meets h = record {
      type = λ n. ground arith;
      source =
          λ n. ground (arith, eq_iff o.source_node_id "", eq_iff e.source_node_id o.source_node_id);
      from = λ t g. ground arith;
      until = λ t g. ground arith;
    }

    passes : Matches o e → match_query o e ≡ true
    passes m = ground (
      arith,
      type_passes e.event_type o.event_types m.type,
      source_passes o.source_node_id e.source_node_id m.source,
      start_passes o.start_time e.timestamp m.from,
      end_passes o.end_time e.timestamp m.until,
    )

abbrev pub time_of : Event → ℕ
time_of e = e.timestamp

kept-Matches : (o : QueryOptions) (es : List Event) → All (Matches o) (keep_if (match_query o) es)
kept-Matches o [] = tt
kept-Matches o (e ∷ es) = elim (Bool-cases (match_query o e)) [
  | inl hit ↦ rw hit ((match_query_iff o e).0 hit, kept-Matches o es)
  | inr miss ↦ rw miss (kept-Matches o es)
]

-- Before paging, a query finds the stored events that match, each as often as it is stored, by
-- rising timestamp.
pub matching_lem :
    (o : QueryOptions) (s : MemoryEventStore)
    → All (Matches o) (matching o s)
      × IsSortedBy time_of (matching o s)
      × Perm (matching o s) (keep_if (match_query o) (map (λ m. m.event) s.entries))
unfolding matching
matching_lem o s =
    let kept = keep_if (match_query o) (map (λ m. m.event) s.entries) in
    (
      All-sort_by time_of (Matches o) kept (kept-Matches o (map (λ m. m.event) s.entries)),
      sort_by-IsSortedBy time_of kept,
      sort_by-perm time_of kept,
    )

-- A query of an open store, under a live context, with an offset that is not negative and a positive
-- limit returns its page of the matching events: they match, and come by rising timestamp.
pub query_lem :
    (o : QueryOptions) (s : MemoryEventStore) (offset limit : ℕ)
    → o.offset ≡ pos offset
    → o.limit ≡ pos (suc limit)
    → s.closed ≡ false
    → (es : List Event) × (query none o s ≡ ok es)
      × (es ≡ take (suc limit) (drop offset (matching o s)))
      × All (Matches o) es
      × IsSortedBy time_of es
unfolding query
query_lem o s offset limit from size open_ =
    let (match_all, sorted, _) = matching_lem o s in
    let rest = drop offset (matching o s) in
    (
      take (suc limit) rest,
      if_of_false _ _ open_
          ∙ ap ok (
              ap (λ z. page z o.limit (matching o s)) from
              ∙ (ap (λ z. page (pos offset) z (matching o s)) size
                  ∙ page-limited offset limit (matching o s))),
      refl,
      All-take _ (suc limit) rest (All-drop _ offset (matching o s) match_all),
      take-IsSortedBy time_of (suc limit) rest
          (drop-IsSortedBy time_of offset (matching o s) sorted),
    )

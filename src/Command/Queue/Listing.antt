-- ===== src/Command/Queue/Listing.antt =====
-- What the queries of the queue return: `List`, `ListByStatus`, `PendingCount`.
use mathlib.Core.List.{Perm}
use openspace_os_core.Base.{
  ℕ, ◌≡◌, refl, ◌∙◌, Bool, true, List, [], ◌∷◌, arith, length, keep_if, count_if, length-keep_if,
  IsSortedBy, sort_by-IsSortedBy, sort_by-perm, All, All-sort_by, length-sort_by,
}
use openspace_os_core.Command.Item.{CommandItem, Status, queued, is_queued, status_eq}
use openspace_os_core.Command.Queue.{PriorityQueue, addresses, list, list_by_status, pending_count}

abbrev pub entered : PriorityQueue → ℕ → ℕ
entered q a = (q.cell a).enqueued_at

-- `List` returns every item once, oldest entry first.
pub list_lem : (q : PriorityQueue) → Perm (list q) (addresses q) × IsSortedBy (entered q) (list q)
unfolding list
list_lem q = (sort_by-perm (entered q) (addresses q), sort_by-IsSortedBy (entered q) (addresses q))

keep_if-All {ℓ} : {A : Type ℓ} (p : A → Bool) (xs : List A) → All (λ x. p x ≡ true) (keep_if p xs)
keep_if-All p [] = tt
keep_if-All p (x ∷ xs) = ground (arith, keep_if-All p xs)

status_eq-queued : (s : Status) → status_eq s queued ≡ is_queued s
unfolding status_eq
status_eq-queued s = ground arith

-- `ListByStatus` returns exactly the items with that status, each once, oldest entry first.
pub list_by_status_lem :
    (q : PriorityQueue) (s : Status)
    → All (λ a. status_eq (q.cell a).status s ≡ true) (list_by_status q s)
      × Perm (list_by_status q s) (keep_if (λ a. status_eq (q.cell a).status s) (addresses q))
      × IsSortedBy (entered q) (list_by_status q s)
unfolding list_by_status
list_by_status_lem q s =
    let kept = keep_if (λ a. status_eq (q.cell a).status s) (addresses q) in
    (
      All-sort_by (entered q) _ kept (keep_if-All _ (addresses q)),
      sort_by-perm (entered q) kept,
      sort_by-IsSortedBy (entered q) kept,
    )

count_queued :
    (cell : ℕ → CommandItem) (out : List ℕ)
    → count_if (λ a. status_eq (cell a).status queued) out
      ≡ count_if (λ a. is_queued (cell a).status) out
count_queued cell [] = refl
count_queued cell (a ∷ out) =
    ground (arith, count_queued cell out, status_eq-queued (cell a).status)

-- `PendingCount` is the length of `ListByStatus("queued")`.
pub length-list_by_status : (q : PriorityQueue) → length (list_by_status q queued) ≡ pending_count q
unfolding list_by_status pending_count
length-list_by_status q =
    length-sort_by (entered q) _
    ∙ (length-keep_if _ (addresses q) ∙ count_queued q.cell (addresses q))

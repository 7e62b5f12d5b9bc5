-- ===== src/Graph/Rules.antt =====
-- What a call of the repositories or of the graph service ends with: the rules for reading its steps
-- one after the other (the monad of Graph).
use openspace_os_core.Base.{String, Option, none, some, List, [], ◌∷◌, ◌≡◌, refl, count_if, Bool}
use openspace_os_core.Model.{Relationship}
use openspace_os_core.Graph.{
  Tables, Database, GraphError, Answer, ok, err, M, and_then, on_tables, under_fault, statement,
  driver_call,
}

-- After a success `Q`, after a failure `E`.
pub data Ends {S A : Type 0} (Q : A → S → Type 0) (E : S → Type 0) : Answer A × S → Type 0 where
  good : {a : A} {s : S} → Q a s → Ends Q E (ok a, s)
  bad : {e : GraphError} {s : S} → E s → Ends Q E (err e, s)

module _ {S A : Type 0} {Q : A → S → Type 0} {E : S → Type 0} where
  pub Ends-and_then :
      {B : Type 0} {R : B → S → Type 0} {r : Answer A × S} (f : A → M S B)
      → Ends Q E r
      → ((a : A) (s : S) → Q a s → Ends R E (f a s))
      → Ends R E (and_then r f)
  Ends-and_then f (good {a} {s} h) next = next a s h
  Ends-and_then f (bad h) next = bad h

  pub Ends-weaken :
      {R : A → S → Type 0} {F : S → Type 0} {r : Answer A × S}
      → Ends Q E r
      → ((a : A) (s : S) → Q a s → R a s)
      → ((s : S) → E s → F s)
      → Ends R F r
  Ends-weaken (good {a} {s} h) keep lose = good (keep a s h)
  Ends-weaken (bad {e} {s} h) keep lose = bad (lose s h)

-- The same of the tables alone.
abbrev pub OnTables :
    {A : Type 0} → (A → Tables → Type 0) → (Tables → Type 0) → Answer A × Database → Type 0
OnTables Q E = Ends (λ a d. Q a d.tables) (λ d. E d.tables)

module _ {A : Type 0} {Q : A → Tables → Type 0} {E : Tables → Type 0} where
  OnTables-on_tables :
      (faults : List (Option String)) {r : Answer A × Tables}
      → Ends Q E r
      → OnTables Q E (on_tables faults r)
  OnTables-on_tables faults (good h) = good h
  OnTables-on_tables faults (bad h) = bad h

  OnTables-under_fault :
      (faults : List (Option String)) (f : Tables → Answer A × Tables) (t : Tables)
      → E t
      → Ends Q E (f t)
      → OnTables Q E (under_fault faults f t)
  OnTables-under_fault [] f t before h = OnTables-on_tables [] h
  OnTables-under_fault (none ∷ faults) f t before h = OnTables-on_tables faults h
  OnTables-under_fault (some e ∷ faults) f t before h = bad before

  -- A statement either fails and leaves the tables, or does its work on them.
  pub OnTables-statement :
      (f : Tables → Answer A × Tables) (d : Database)
      → E d.tables
      → Ends Q E (f d.tables)
      → OnTables Q E (statement f d)
  OnTables-statement f d before h = OnTables-under_fault d.faults f d.tables before h

-- A call of the driver that succeeds leaves the tables.
pub OnTables-driver_call :
    (d : Database) → OnTables (λ _ t. t ≡ d.tables) (λ t. t ≡ d.tables) (driver_call d)
OnTables-driver_call d = OnTables-statement (λ t. (ok tt, t)) d refl (good refl)

pub data IsRow (r : Relationship) : List Relationship → Type 0 where
  first : {rs : List Relationship} → IsRow r (r ∷ rs)
  next : {s : Relationship} {rs : List Relationship} → IsRow r rs → IsRow r (s ∷ rs)

-- The same rows, each as often: what is documented of `ORDER BY`.
pub record Rearranges (by_age : List Relationship → List Relationship) : Type 0 where
  pub counts :
      (p : Relationship → Bool) (rs : List Relationship) → count_if p (by_age rs) ≡ count_if p rs
  pub rows : (rs : List Relationship) (r : Relationship) → IsRow r (by_age rs) → IsRow r rs

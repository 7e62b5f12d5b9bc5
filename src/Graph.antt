-- ===== src/Graph.antt =====
-- The knowledge graph: the tables behind internal/core/node_repo_sqlite.go and rel_repo_sqlite.go, the
-- repositories of repository.go (Graph/Nodes, Graph/Relationships), and the service of kg_service.go
-- (Graph/Service).
--
-- A row stands for the struct that it is scanned to: times and properties come back as they were
-- written, but for the empty map, which comes back as nil. `faults` is the driver's part: one entry
-- for each test of `ctx.Err()`, each statement, and the start and end of a transaction; `some e` is a
-- failure, which changes nothing. When the entries run out nothing fails.
pub mod Nodes
pub mod Relationships
pub mod Rules
pub mod Consistent
pub mod Repositories
pub mod Traversal
pub mod Dialect
pub mod Service
use openspace_os_core.Base.{String, Option, none, some, List, [], ◌∷◌}
use openspace_os_core.Model.{Node, Relationship, ModelError}

pub record Tables : Type 0 where
  pub nodes : List Node
  pub relationships : List Relationship

pub record Database : Type 0 where
  pub tables : Tables
  pub faults : List (Option String)

pub data GraphError : Type 0 where
  nil_node nil_rel empty_changes : GraphError
  invalid : ModelError → GraphError
  failed : String → GraphError
  duplicate : String → GraphError
  not_found : String → GraphError
  not_published : String → GraphError

pub data Answer {ℓ} (A : Type ℓ) : Type ℓ where
  ok : A → Answer A
  err : GraphError → Answer A

-- A call: its answer, and the state after it.
abbrev pub M : Type 0 → Type 0 → Type 0
M S A = S → Answer A × S

abbrev pub and_then : {S A B : Type 0} → Answer A × S → (A → M S B) → Answer B × S
and_then (ok a, s) f = f a s
and_then (err e, s) f = (err e, s)

infixl 5 ◌>>=◌ ◌>>◌
abbrev pub ◌>>=◌ : {S A B : Type 0} → M S A → (A → M S B) → M S B
◌>>=◌ m f s = and_then (m s) f

abbrev pub ◌>>◌ : {S B : Type 0} → M S (Unit {0}) → M S B → M S B
m >> k = m >>= λ _. k

abbrev pub return : {S A : Type 0} → A → M S A
return a s = (ok a, s)

abbrev pub throw : {S A : Type 0} → GraphError → M S A
throw e s = (err e, s)

abbrev pub fail_if_some : {S : Type 0} → Option GraphError → M S (Unit {0})
fail_if_some none = return tt
fail_if_some (some e) = throw e

module _ {A : Type 0} where
  abbrev pub on_tables : List (Option String) → Answer A × Tables → Answer A × Database
  on_tables faults (a, t) = (a, record { tables = t; faults = faults })

  abbrev pub under_fault :
      List (Option String) → (Tables → Answer A × Tables) → Tables → Answer A × Database
  under_fault [] f t = on_tables [] (f t)
  under_fault (none ∷ faults) f t = on_tables faults (f t)
  under_fault (some e ∷ faults) f t = (err (failed e), record { tables = t; faults = faults })

  -- One statement, or another call of the driver.
  abbrev pub statement : (Tables → Answer A × Tables) → M Database A
  statement f d = under_fault d.faults f d.tables

-- A call of the driver that touches no table: `ctx.Err()`, `BeginTx`, `Commit`.
abbrev pub driver_call : M Database (Unit {0})
driver_call = statement (λ t. (ok tt, t))

-- A failure after `BeginTx` rolls the tables back.
abbrev pub roll_back_to : {A : Type 0} → Tables → Answer A × Database → Answer A × Database
roll_back_to t (ok a, d) = (ok a, d)
roll_back_to t (err e, d) = (err e, record d { tables = t })

-- ===== src/Graph/Service/Calls.antt =====
-- What the calls of a service of internal/core/kg_service.go do to the tables.
use openspace_os_core.Base.{String, Option, none, some, if_cases}
use openspace_os_core.Event.{Payload}
use openspace_os_core.Bus.{MessageBus}
use openspace_os_core.Model.{ModelError}
use openspace_os_core.Graph.{return, Tables, Database, Answer, ◌>>◌}
use openspace_os_core.Graph.Rules.{Ends, good, bad, Ends-and_then, OnTables}
use openspace_os_core.Graph.Service.{
  KgService, Stamp, HookCall, with_db, trigger, when_valid, publish_result, publish_event,
}

module _ {B : Type 0} where
  -- The service's answer, as far as the tables go.
  abbrev pub InStore :
      {A : Type 0} → (A → Tables → Type 0) → (Tables → Type 0) → Answer A × KgService B → Type 0
  InStore Q E = Ends (λ a s. Q a s.db.tables) (λ s. E s.db.tables)

  pub InStore-with_db :
      {A : Type 0} (Q : A → Tables → Type 0) (E : Tables → Type 0) (s : KgService B)
      {r : Answer A × Database}
      → OnTables Q E r
      → InStore Q E (with_db s r)
  InStore-with_db Q E s (good h) = good h
  InStore-with_db Q E s (bad h) = bad h

  module _ (Q E : Tables → Type 0) (s : KgService B) (h : Q s.db.tables) (h' : E s.db.tables) where
    pub InStore-trigger : (call : HookCall) → InStore (λ _ t. Q t) E (trigger call s)
    InStore-trigger call =
        good (if_cases (λ (u : KgService B). Q u.db.tables) s.hooked (λ _. h) (λ _. h))

    pub InStore-when_valid : (o : Option ModelError) → InStore (λ _ t. Q t) E (when_valid o s)
    InStore-when_valid none = good h
    InStore-when_valid (some e) = bad h'

    pub InStore-return : {A : Type 0} (a : A) → InStore (λ _ t. Q t) E (return {A = A} a s)
    InStore-return a = good h

  module _ (b : MessageBus B) (Q E : Tables → Type 0) where
    published_tables :
        (s : KgService B) (r : Option String × B)
        → Q s.db.tables
        → E s.db.tables
        → InStore (λ _ t. Q t) E (publish_result b s r)
    published_tables s (none, bus) h h' = good h
    published_tables s (some e, bus) h h' = bad h'

    -- Events and hooks leave the tables alone.
    pub InStore-publish_event :
        (st : Stamp) (type source : String) (p : Payload) (s : KgService B)
        → Q s.db.tables
        → E s.db.tables
        → InStore (λ _ t. Q t) E (publish_event b st type source p s)
    unfolding publish_event
    InStore-publish_event st type source p s h h' = published_tables s _ h h'

    pub announced :
        ((t : Tables) → Q t → E t)
        → (st : Stamp) (type source : String) (p : Payload) (call : HookCall) (s : KgService B)
        → Q s.db.tables
        → InStore (λ _ t. Q t) E ((publish_event b st type source p >> trigger call) s)
    announced weak st type source p call s h =
        Ends-and_then _ (InStore-publish_event st type source p s h (weak _ h))
          (λ _ u k. InStore-trigger Q E u k (weak _ k) call)

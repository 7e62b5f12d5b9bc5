-- ===== src/Store/Sqlite/Agreement.antt =====
-- The two event stores side by side: internal/core/event_store_sqlite.go and event_store_memory.go
-- after the same events have been appended to both.
use openspace_os_core.Base.{
  ℕ, ◌≡◌, refl, ap, ◌∙◌, sym, String, false, none, some, List, [], ◌∷◌, ◌++◌, map, arith,
  Bool-cases, Option-cases, All, subst, inl, inr, ◌≢◌,
}
use mathlib.Core.List.{map-append}
use openspace_os_core.Event.{Event}
use openspace_os_core.Store
use openspace_os_core.Store.{
  QueryOptions, StoreConfig, MemoryEventStore, match_query, has_type, is_empty, before_start,
  after_end, page, cut, new_memory_event_store,
}
use openspace_os_core.Store.Sqlite.{
  Texts, Row, SqliteEventStore, Reply, ok, err, meets_all, build_select, select, query, append,
  new_sqlite_event_store, is_stored, to_row,
}
use openspace_os_core.Store.Sqlite.Rows.{
  IsPlain, IsDocumented, ReadsBack, Stands, PlainBound, AllStand, meets-match, AllStand-keep,
  AllStand-sort, AllStand-drop, AllStand-limited, scan_all-stand, page-limited,
}

module _ (x : Texts) (d : IsDocumented x) where
  -- The two stores hold the same events.
  abbrev events_of : MemoryEventStore → List Event
  events_of m = map (λ n. n.event) m.entries

  record Represents (s : SqliteEventStore) (m : MemoryEventStore) : Type 0 where
    rows : AllStand x (events_of m) s.rows
    sqlite_open : s.closed ≡ false
    memory_open : m.closed ≡ false

  query-Represents :
      (o : QueryOptions) (s : SqliteEventStore) (m : MemoryEventStore)
      → PlainBound o.start_time
      → PlainBound o.end_time
      → Represents s m
      → (es : List Event) × (query x none none o s ≡ ok es) × (Store.query none o m ≡ Store.ok es)
  unfolding query Store.query Store.matching select
  query-Represents o s m from until h =
      let all = events_of m in
      let kept =
        AllStand-keep x d (match_query o) (meets_all x (build_select x o).clauses) all s.rows
          (λ e r. meets-match x d o e r from until) h.rows in
      let sorted = AllStand-sort x d _ _ kept in
      let found =
        AllStand-limited x d (build_select x o).limit _ _
          (AllStand-drop x d (build_select x o).offset _ _ sorted) in
      (
        page o.offset o.limit (Store.matching o m),
        rw h.sqlite_open (scan_all-stand x d _ _ found ∙ ap ok (page-limited x d o _)),
        rw h.memory_open refl,
      )

  AllStand-snoc :
      (es : List Event) (rs : List Row) (e : Event) (r : Row)
      → AllStand x es rs
      → Stands x e r
      → AllStand x (es ++ (e ∷ [])) (rs ++ (r ∷ []))
  AllStand-snoc [] [] e r s t = (t, tt)
  AllStand-snoc [] (q ∷ rs) e r s t = absurd s
  AllStand-snoc (f ∷ es) [] e r s t = absurd s
  AllStand-snoc (f ∷ es) (q ∷ rs) e r (s, ss) t = (s, AllStand-snoc es rs e r ss t)

  append-Represents :
      (now : ℕ) (e : Event) (s s' : SqliteEventStore) (m : MemoryEventStore)
      → IsPlain e.timestamp
      → ReadsBack x e.payload
      → Represents s m
      → append x none none now (some e) s ≡ ok s'
      → (m' : MemoryEventStore) × (Store.append none now (some e) m ≡ Store.ok m')
        × Represents s' m'
  unfolding append Store.append
  append-Represents now e s s' m plain reads h a = elim (Option-cases (x.marshal e.payload)) [
    | inl lost ↦ absurd (ground arith)
    | inr (p, kept) ↦ elim (Bool-cases (is_stored e.event_id s.rows)) [
      | inl old ↦ absurd (ground arith)
      | inr new ↦ (
        record m { entries = m.entries ++ (record { event = e; created_at = now } ∷ []) },
        rw h.memory_open refl,
        record {
          rows =
              subst (λ l. AllStand x l s'.rows) (sym (map-append (λ n. n.event) m.entries _))
                (subst (AllStand x (events_of m ++ (e ∷ []))) (sym (stored-rows p kept new))
                  (AllStand-snoc (events_of m) s.rows e (to_row x e p now) h.rows (stands p kept)));
          sqlite_open = ground arith;
          memory_open = h.memory_open;
        },
      )
    ]
  ]
    where
      stored-rows :
          (p : String)
          → x.marshal e.payload ≡ some p
          → is_stored e.event_id s.rows ≡ false
          → s'.rows ≡ s.rows ++ (to_row x e p now ∷ [])
      stored-rows p kept new = ground arith

      stands : (p : String) → x.marshal e.payload ≡ some p → Stands x e (to_row x e p now)
      stands p kept = record {
        event_id = refl;
        event_type = refl;
        timestamp = refl;
        source_node_id = refl;
        trace_id = refl;
        payload = reads p kept;
        plain = plain;
      }

abbrev ArePlain : List (ℕ × Event) → Type 0
ArePlain = All (λ p. IsPlain p.1.timestamp)

abbrev ReadBack : Texts → List (ℕ × Event) → Type 0
ReadBack x = All (λ p. ReadsBack x p.1.payload)

-- No two events have the same time. Of such events neither `sort.Slice` nor ORDER BY fixes the order.
abbrev TimesDiffer : List (ℕ × Event) → Type 0
TimesDiffer [] = Unit
TimesDiffer (p ∷ ps) = All (λ q. p.1.timestamp ≢ q.1.timestamp) ps × TimesDiffer ps

-- The appends of a list of events, each at its time, until one fails.
abbrev pub then_store {ℓ} : {A B : Type ℓ} → Reply A → (A → Reply B) → Reply B
then_store (ok a) f = f a
then_store (err e) f = err e

abbrev pub then_remember {ℓ} :
    {A B : Type ℓ} → Store.Answer A → (A → Store.Answer B) → Store.Answer B
then_remember (Store.ok a) f = f a
then_remember (Store.err e) f = Store.err e

unfoldable pub store_all : Texts → List (ℕ × Event) → SqliteEventStore → Reply SqliteEventStore
store_all x [] s = ok s
store_all x ((now, e) ∷ es) s = then_store (append x none none now (some e) s) (store_all x es)

unfoldable pub remember_all : List (ℕ × Event) → MemoryEventStore → Store.Answer MemoryEventStore
remember_all [] m = Store.ok m
remember_all ((now, e) ∷ es) m = then_remember (Store.append none now (some e) m) (remember_all es)

then_store-ok :
    {A B : Type 0} (a : Reply A) (f : A → Reply B) {b : B}
    → then_store a f ≡ ok b
    → (c : A) × (a ≡ ok c) × (f c ≡ ok b)
then_store-ok (ok c) f h = (c, refl, h)
then_store-ok (err e) f h = cc

store_all-Represents :
    (x : Texts) (d : IsDocumented x) (es : List (ℕ × Event)) (s s' : SqliteEventStore)
    (m : MemoryEventStore)
    → ArePlain es
    → ReadBack x es
    → Represents x d s m
    → store_all x es s ≡ ok s'
    → (m' : MemoryEventStore) × (remember_all es m ≡ Store.ok m') × Represents x d s' m'
unfolding store_all remember_all
store_all-Represents x d [] s s' m plain reads h a =
    (m, refl, subst (λ t. Represents x d t m) (ground arith) h)
store_all-Represents x d ((now, e) ∷ es) s s' m plain reads h a =
    let (s1, first, rest) = then_store-ok (append x none none now (some e) s) (store_all x es) a in
    let (m1, kept, h1) = append-Represents x d now e s s1 m plain.0 reads.0 h first in
    let (m', more, h') = store_all-Represents x d es s1 s' m1 plain.1 reads.1 h1 rest in
    (m', rw kept more, h')

-- Events with different timestamps of whole seconds, whose payloads JSON gives back as they are, are
-- accepted by the memory store too once the SQLite store has accepted them, and any query with bounds of
-- whole seconds then finds the same in both.
pub query-agrees :
    (x : Texts) (d : IsDocumented x) (cfg : StoreConfig) (es : List (ℕ × Event))
    (s : SqliteEventStore) (o : QueryOptions)
    → ArePlain es
    → TimesDiffer es
    → ReadBack x es
    → PlainBound o.start_time
    → PlainBound o.end_time
    → store_all x es (new_sqlite_event_store cfg) ≡ ok s
    → (m : MemoryEventStore) × (found : List Event) × (remember_all es (new_memory_event_store cfg)
        ≡ Store.ok m)
      × (query x none none o s ≡ ok found)
      × (Store.query none o m ≡ Store.ok found)
unfolding new_sqlite_event_store new_memory_event_store
query-agrees x d cfg es s o plain differ reads from until a =
    let start : Represents x d (new_sqlite_event_store cfg) (new_memory_event_store cfg) = record {
      rows = tt;
      sqlite_open = refl;
      memory_open = refl;
    } in
    let (m, kept, h) =
      store_all-Represents x d es (new_sqlite_event_store cfg) s (new_memory_event_store cfg) plain
        reads start a in
    let (found, in_rows, in_memory) = query-Represents x d o s m from until h in
    (m, found, kept, in_rows, in_memory)

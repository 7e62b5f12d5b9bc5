-- ===== src/Store/Sqlite/Order.antt =====
-- What ORDER BY of internal/core/event_store_sqlite.go makes of times whose RFC3339Nano texts do not
-- sort as the times do; the documentation of Go's `time` says that there are such.
use openspace_os_core.Base.{
  ℕ, ◌<◌, ◌≡◌, ◌≢◌, pos, String, true, false, none, some, [], ◌∷◌, arith, eq_iff, IsSortedBy,
}
use openspace_os_core.Event.{Event}
use openspace_os_core.Store.{QueryOptions, StoreConfig}
use openspace_os_core.Store.Sqlite.{
  Texts, SqliteEventStore, ok, scan_all, scan_event, build_select, select, query, append,
  new_sqlite_event_store, to_row,
}
use openspace_os_core.Store.Sqlite.Rows.{time_of}
use openspace_os_core.Store.Sqlite.Agreement.{store_all}

-- The options of a query for everything.
abbrev pub everything : QueryOptions
everything = record {
  event_types = [];
  source_node_id = "";
  start_time = none;
  end_time = none;
  limit = pos 0;
  offset = pos 0;
}

-- What can be written and read back.
pub record IsReadable (x : Texts) (e : Event) : Type 0 where
  pub text : String
  pub encoded : x.marshal e.payload ≡ some text
  pub decoded : x.unmarshal text ≡ some e.payload
  pub parsed : x.parse (x.format e.timestamp) ≡ some e.timestamp

module _ (x : Texts) where
  readable :
      (e : Event) (now : ℕ) (r : IsReadable x e) → scan_event x (to_row x e r.text now) ≡ ok e
  unfolding scan_event
  readable e now r = ground (arith, r.decoded, r.parsed)

  -- An event that is later by its time but whose text sorts before another's is found before it.
  pub query-reversed :
      (cfg : StoreConfig) (e f : Event) (now later : ℕ)
      → IsReadable x e
      → IsReadable x f
      → e.event_id ≢ f.event_id
      → e.timestamp < f.timestamp
      → x.text_lt (x.format f.timestamp) (x.format e.timestamp) ≡ true
      → x.text_lt (x.format e.timestamp) (x.format f.timestamp) ≡ false
      → (s : SqliteEventStore) × (store_all x
            ((now, e) ∷ (later, f) ∷ [])
            (new_sqlite_event_store cfg)
          ≡ ok s)
        × (query x none none everything s ≡ ok (f ∷ e ∷ []))
        × (¬ IsSortedBy time_of (f ∷ e ∷ []))
  unfolding store_all append new_sqlite_event_store query select build_select scan_all
  query-reversed cfg e f now later re rf other lt before after =
      let other_ids = eq_iff e.event_id f.event_id in
      (
        record (new_sqlite_event_store cfg) {
          rows = to_row x e re.text now ∷ to_row x f rf.text later ∷ [];
        },
        ground (arith, re.encoded, rf.encoded, other_ids),
        ground (arith, readable e now re, readable f later rf),
        λ sorted. absurd (omega (arith, sorted.0.0)),
      )

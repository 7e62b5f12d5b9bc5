-- ===== src/Store/Sqlite/Rows.antt =====
-- The rows that stand for events, and what the parts of Query in internal/core/event_store_sqlite.go
-- do to them against those of event_store_memory.go. Hypotheses on the parameters hold for times of whole
-- seconds before the year 10000, whose RFC3339Nano texts all have one length.
use openspace_os_core.Base.{
  ℕ, ◌*◌, ◌%◌, ◌<◌, ◌≡◌, refl, ◌∙◌, sym, ℤ, pos, negsuc, pos_part, ltb_ℤ, String, Bool, true, false,
  not, ◌&&◌, Option, none, some, List, [], ◌∷◌, ◌++◌, arith, str_eq, if◌then◌else◌, ltb, take, drop,
  keep_if, sort_by, insert_by, suc, zero,
}
use openspace_os_core.Event.{Event, Value}
use openspace_os_core.Store.{
  QueryOptions, match_query, has_type, is_empty, before_start, after_end, page, cut,
}
use openspace_os_core.Store.Paging.{page-cut, cut-suc}
use openspace_os_core.Store.Sqlite.{
  Texts, Row, ok, meets_all, order_rows, insert_row, limited, scan_all, scan_event, Clause,
  type_clause, source_clause, since_clause, until_clause, build_select,
}

-- The first instant of the year 10000.
abbrev pub end_of_9999 : ℕ
end_of_9999 = 315_537_897_600 * 1_000_000_000

abbrev pub IsPlain : ℕ → Type 0
IsPlain t = (t % 1_000_000_000 ≡ 0) × (t < end_of_9999)

-- What the documentation of the libraries promises.
pub record IsDocumented (x : Texts) : Type 0 where
  pub ordered : (t u : ℕ) → IsPlain t → IsPlain u → x.text_lt (x.format t) (x.format u) ≡ ltb t u
  pub parsed : (t : ℕ) → IsPlain t → x.parse (x.format t) ≡ some t

-- JSON gives the payload back as it is: it sorts the keys of a map and makes every number a float64, so
-- this is so of payloads with keys in that order and numbers of that kind.
abbrev pub ReadsBack : Texts → Option (List (String × Value)) → Type 0
ReadsBack x p = (s : String) → x.marshal p ≡ some s → x.unmarshal s ≡ some p

-- A row that stands for an event.
pub record Stands (x : Texts) (e : Event) (r : Row) : Type 0 where
  pub event_id : r.event_id ≡ e.event_id
  pub event_type : r.event_type ≡ e.event_type
  pub timestamp : r.timestamp ≡ x.format e.timestamp
  pub source_node_id : r.source_node_id ≡ e.source_node_id
  pub trace_id : r.trace_id ≡ e.trace_id
  pub payload : x.unmarshal r.payload ≡ some e.payload
  pub plain : IsPlain e.timestamp

abbrev pub PlainBound : Option ℕ → Type 0
PlainBound none = Unit
PlainBound (some t) = IsPlain t

abbrev pub time_of : Event → ℕ
time_of e = e.timestamp

module _ (x : Texts) where
  abbrev pub AllStand : List Event → List Row → Type 0
  AllStand [] [] = Unit
  AllStand (e ∷ es) [] = ⊥
  AllStand [] (r ∷ rs) = ⊥
  AllStand (e ∷ es) (r ∷ rs) = Stands x e r × AllStand es rs

module _ (x : Texts) (d : IsDocumented x) where
  meets_all-append :
      (cs ds : List Clause) (r : Row)
      → meets_all x (cs ++ ds) r ≡ (meets_all x cs r && meets_all x ds r)
  meets_all-append [] ds r = refl
  meets_all-append (c ∷ cs) ds r = ground (arith, meets_all-append cs ds r)

  type_clause-meets :
      (ts : List String) (r : Row)
      → meets_all x (type_clause ts) r ≡ not (not (is_empty ts) && not (has_type r.event_type ts))
  type_clause-meets [] r = refl
  type_clause-meets (t ∷ ts) r = ground arith

  source_clause-meets :
      (id : String) (r : Row)
      → meets_all x (source_clause id) r
        ≡ not (not (str_eq id "") && not (str_eq r.source_node_id id))
  source_clause-meets id r = ground arith

  since_clause-meets :
      (from : Option ℕ) (e : Event) (r : Row)
      → PlainBound from
      → Stands x e r
      → meets_all x (since_clause x from) r ≡ not (before_start from e.timestamp)
  since_clause-meets none e r h s = refl
  since_clause-meets (some t) e r h s =
      let same = d.ordered e.timestamp t s.plain h in rw (s.timestamp) (ground (arith, same))

  until_clause-meets :
      (until : Option ℕ) (e : Event) (r : Row)
      → PlainBound until
      → Stands x e r
      → meets_all x (until_clause x until) r ≡ not (after_end until e.timestamp)
  until_clause-meets none e r h s = refl
  until_clause-meets (some t) e r h s =
      let same = d.ordered t e.timestamp h s.plain in rw (s.timestamp) (ground (arith, same))

  pub meets-match :
      (o : QueryOptions) (e : Event) (r : Row)
      → PlainBound o.start_time
      → PlainBound o.end_time
      → Stands x e r
      → meets_all x (build_select x o).clauses r ≡ match_query o e
  unfolding build_select match_query
  meets-match o e r from until s =
      let times = since_clause x o.start_time ++ until_clause x o.end_time in
      ground (
        arith,
        meets_all-append (type_clause o.event_types) (source_clause o.source_node_id ++ times) r,
        meets_all-append (source_clause o.source_node_id) times r,
        meets_all-append (since_clause x o.start_time) (until_clause x o.end_time) r,
        type_clause-meets o.event_types r,
        source_clause-meets o.source_node_id r,
        since_clause-meets o.start_time e r from s,
        until_clause-meets o.end_time e r until s,
        s.event_type,
        s.source_node_id,
      )

  pub AllStand-keep :
      (p : Event → Bool) (q : Row → Bool) (es : List Event) (rs : List Row)
      → ((e : Event) (r : Row) → Stands x e r → q r ≡ p e)
      → AllStand x es rs
      → AllStand x (keep_if p es) (keep_if q rs)
  AllStand-keep p q [] [] h s = s
  AllStand-keep p q [] (r ∷ rs) h s = absurd s
  AllStand-keep p q (e ∷ es) [] h s = absurd s
  AllStand-keep p q (e ∷ es) (r ∷ rs) h (s, ss) =
      let rest = AllStand-keep p q es rs h ss in ground (arith, h e r s)

  AllStand-if :
      (c : Bool) (es fs : List Event) (rs qs : List Row)
      → AllStand x es rs
      → AllStand x fs qs
      → AllStand x (if c then es else fs) (if c then rs else qs)
  AllStand-if true es fs rs qs s t = s
  AllStand-if false es fs rs qs s t = t

  AllStand-insert :
      (e : Event) (r : Row) (es : List Event) (rs : List Row)
      → Stands x e r
      → AllStand x es rs
      → AllStand x (insert_by time_of e es) (insert_row x r rs)
  AllStand-insert e r [] [] s ss = (s, tt)
  AllStand-insert e r [] (q ∷ rs) s ss = absurd ss
  AllStand-insert e r (f ∷ es) [] s ss = absurd ss
  AllStand-insert e r (f ∷ es) (q ∷ rs) s (t, ss) =
      let rest = AllStand-insert e r es rs s ss in
      let same : x.text_lt q.timestamp r.timestamp ≡ ltb f.timestamp e.timestamp =
        rw (t.timestamp, s.timestamp) (d.ordered f.timestamp e.timestamp t.plain s.plain) in
      rw same (
        AllStand-if (ltb f.timestamp e.timestamp) (f ∷ insert_by time_of e es) (e ∷ f ∷ es)
          (q ∷ insert_row x r rs) (r ∷ q ∷ rs) (t, rest) (s, (t, ss)))

  pub AllStand-sort :
      (es : List Event) (rs : List Row)
      → AllStand x es rs
      → AllStand x (sort_by time_of es) (order_rows x rs)
  AllStand-sort [] [] s = s
  AllStand-sort [] (r ∷ rs) s = absurd s
  AllStand-sort (e ∷ es) [] s = absurd s
  AllStand-sort (e ∷ es) (r ∷ rs) (s, ss) =
      AllStand-insert e r (sort_by time_of es) (order_rows x rs) s (AllStand-sort es rs ss)

  pub AllStand-drop :
      (n : ℕ) (es : List Event) (rs : List Row)
      → AllStand x es rs
      → AllStand x (drop n es) (drop n rs)
  AllStand-drop zero es rs s = s
  AllStand-drop (suc n) [] [] s = s
  AllStand-drop (suc n) [] (r ∷ rs) s = absurd s
  AllStand-drop (suc n) (e ∷ es) [] s = absurd s
  AllStand-drop (suc n) (e ∷ es) (r ∷ rs) (s, ss) = AllStand-drop n es rs ss

  AllStand-take :
      (n : ℕ) (es : List Event) (rs : List Row)
      → AllStand x es rs
      → AllStand x (take n es) (take n rs)
  AllStand-take zero es rs s = tt
  AllStand-take (suc n) [] [] s = s
  AllStand-take (suc n) [] (r ∷ rs) s = absurd s
  AllStand-take (suc n) (e ∷ es) [] s = absurd s
  AllStand-take (suc n) (e ∷ es) (r ∷ rs) (s, ss) = (s, AllStand-take n es rs ss)

  pub AllStand-limited :
      (n : Option ℕ) (es : List Event) (rs : List Row)
      → AllStand x es rs
      → AllStand x (limited n es) (limited n rs)
  AllStand-limited none es rs s = s
  AllStand-limited (some n) es rs s = AllStand-take n es rs s

  pub scan_all-stand : (es : List Event) (rs : List Row) → AllStand x es rs → scan_all x rs ≡ ok es
  unfolding scan_all scan_event
  scan_all-stand [] [] s = refl
  scan_all-stand [] (r ∷ rs) s = absurd s
  scan_all-stand (e ∷ es) [] s = absurd s
  scan_all-stand (e ∷ es) (r ∷ rs) (s, ss) =
      ground (arith, s.timestamp, s.payload, d.parsed e.timestamp s.plain, scan_all-stand es rs ss)

  limited-cut :
      (limit : ℤ) (es : List Event)
      → limited (if ltb_ℤ (pos 0) limit then some (pos_part limit) else none) es ≡ cut limit es
  limited-cut (pos zero) es = refl
  limited-cut (pos (suc n)) es = ground (arith, cut-suc n es)
  limited-cut (negsuc n) es = ground arith

  page-below : (n : ℕ) (limit : ℤ) (es : List Event) → page (negsuc n) limit es ≡ cut limit es
  unfolding page
  page-below n limit es = ground arith

  drop-page :
      (offset limit : ℤ) (es : List Event)
      → cut limit (drop (if ltb_ℤ (pos 0) offset then pos_part offset else 0) es)
        ≡ page offset limit es
  drop-page (pos zero) limit es = sym (page-cut 0 limit es)
  drop-page (pos (suc n)) limit es = ground (arith, page-cut (suc n) limit es)
  drop-page (negsuc n) limit es = ground (arith, page-below n limit es)

  pub page-limited :
      (o : QueryOptions) (es : List Event)
      → limited (build_select x o).limit (drop (build_select x o).offset es)
        ≡ page o.offset o.limit es
  unfolding build_select
  page-limited o es =
      limited-cut o.limit (drop (if ltb_ℤ (pos 0) o.offset then pos_part o.offset else 0) es)
      ∙ drop-page o.offset o.limit es

-- ===== src/Bus/Nats/History.antt =====
-- What Replay of internal/core/nats_bus.go returns.
use openspace_os_core.Base.{
  ℕ, zero, suc, ◌+◌, ◌-◌, ◌<◌, ◌≤◌, ◌≡◌, refl, ◌∙◌, ap, sym, ℤ, pos, negsuc, pos_part, ltb_ℤ,
  String, Bool, true, false, Option, none, some, List, [], ◌∷◌, ◌++◌, map, arith, if◌then◌else◌,
  length, take, keep_if, sort_by, insert_by, IsSortedBy, All, Bool-cases, if_cases, keep_if_agree,
  All-of, inl, inr, length-append, subst, All-keep_if,
}
use mathlib.Core.List.{append_assoc, append-nil}
use openspace_os_core.Event.{Event}
use openspace_os_core.Store
use openspace_os_core.Store.{MemoryEventStore, match_query, is_empty, has_type, cut, page, query}
use openspace_os_core.Store.Paging.{page-cut, cut-suc}
use openspace_os_core.Store.Query.{time_of}
use openspace_os_core.Bus.Local.{ReplayOptions, replay_query}
use openspace_os_core.Bus.Nats.{
  ok, match_replay, is_full, Read, then_read, wanted, read_one, read_batch, Fault, no_fault, replay,
}
use openspace_os_core.Bus.Nats.Rounds.{events_in, read_rounds_lem}

match_replay-match_query :
    (o : ReplayOptions) (e : Event) → match_replay o e ≡ match_query (replay_query o) e
unfolding match_replay match_query
match_replay-match_query o e = refl

-- The messages that can be decoded.
abbrev pub decode_one : Option Event → List Event → List Event
decode_one none es = es
decode_one (some e) es = e ∷ es

unfoldable pub decode_all : (String → Option Event) → List String → List Event
decode_all unmarshal [] = []
decode_all unmarshal (m ∷ ms) = decode_one (unmarshal m) (decode_all unmarshal ms)

module _ (unmarshal : String → Option Event) (o : ReplayOptions) where
  -- What is still missing of the limit.
  abbrev up_to_limit : ℤ → ℕ → List Event → List Event
  up_to_limit limit n es = if ltb_ℤ (pos 0) limit then take (pos_part limit - n) es else es

  up_to_limit-nil : (limit : ℤ) (n : ℕ) → up_to_limit limit n [] ≡ []
  up_to_limit-nil limit n =
      if_cases (λ (es : List Event). es ≡ []) (ltb_ℤ (pos 0) limit)
        (λ h. take-nil-events (pos_part limit - n)) (λ h. refl)
    where
      take-nil-events : (n : ℕ) → ◌≡◌ {A = List Event} (take n []) []
      take-nil-events zero = refl
      take-nil-events (suc n) = refl

  take-sub :
      (k n : ℕ) (e : Event) (es : List Event)
      → n < k
      → take (k - n) (e ∷ es) ≡ e ∷ take (k - suc n) es
  take-sub k n e es h = let step : k - n ≡ suc (k - suc n) = omega arith in rw step refl

  up_to_limit-cons :
      (limit : ℤ) (out : List Event) (e : Event) (es : List Event)
      → is_full limit out ≡ false
      → up_to_limit limit (length out) (e ∷ es) ≡ e ∷ up_to_limit limit (suc (length out)) es
  up_to_limit-cons (pos zero) out e es h = refl
  up_to_limit-cons (pos (suc k)) out e es h = ground (arith, take-sub (suc k) (length out) e es)
  up_to_limit-cons (negsuc k) out e es h = ground arith

  up_to_limit-full :
      (limit : ℤ) (out : List Event) (e : Event) (es : List Event)
      → is_full limit (out ++ (e ∷ [])) ≡ true
      → up_to_limit limit (suc (length out)) es ≡ []
  up_to_limit-full (pos zero) out e es h = absurd (ground arith)
  up_to_limit-full (pos (suc k)) out e es h =
      let none_left : suc k - suc (length out) ≡ 0 = ground (arith, length-append out (e ∷ [])) in
      ground (arith, none_left)
  up_to_limit-full (negsuc k) out e es h = absurd (ground arith)

  -- `next` adds to what was read what the limit still allows of `es`.
  abbrev Appends : (List Event → Read) → List Event → Type 0
  Appends next es =
      (out : List Event)
      → is_full o.limit out ≡ false
      → events_in unmarshal o (next out) ≡ out ++ up_to_limit o.limit (length out) es

  wanted-true :
      (next : List Event → Read) (es out : List Event) (e : Event)
      → Appends next es
      → events_in unmarshal o (then_read (wanted unmarshal o out e true) next)
        ≡ out ++ (e ∷ up_to_limit o.limit (suc (length out)) es)
  wanted-true next es out e ih = elim (Bool-cases (is_full o.limit (out ++ (e ∷ [])))) [
    | inl full ↦ rw (full, up_to_limit-full o.limit out e es full) refl
    | inr room ↦ rw room (
        ih (out ++ (e ∷ [])) room
        ∙ (ap (λ n. (out ++ (e ∷ [])) ++ up_to_limit o.limit n es)
              (length-append out (e ∷ []) ∙ omega arith)
            ∙ append_assoc out (e ∷ []) _))
  ]

  wanted-Appends :
      (next : List Event → Read) (es : List Event) (e : Event) (b : Bool)
      → Appends next es
      → Appends (λ out. then_read (wanted unmarshal o out e b) next) (if b then e ∷ es else es)
  wanted-Appends next es e false ih out h = ih out h
  wanted-Appends next es e true ih out h =
      rw (up_to_limit-cons o.limit out e es h) (wanted-true next es out e ih)

  read_one-Appends :
      (next : List Event → Read) (es : List Event) (d : Option Event)
      → Appends next (keep_if (match_replay o) es)
      → Appends
          (λ out. then_read (read_one unmarshal o out d) next)
          (keep_if (match_replay o) (decode_one d es))
  read_one-Appends next es none ih = ih
  read_one-Appends next es (some e) ih =
      wanted-Appends next (keep_if (match_replay o) es) e (match_replay o e) ih

  read_batch-Appends :
      (ms : List String)
      → Appends
          (λ out. read_batch unmarshal o out ms)
          (keep_if (match_replay o) (decode_all unmarshal ms))
  unfolding read_batch decode_all
  read_batch-Appends [] out h = rw (up_to_limit-nil o.limit (length out)) (sym (append-nil out))
  read_batch-Appends (m ∷ ms) out h =
      read_one-Appends (λ out'. read_batch unmarshal o out' ms) (decode_all unmarshal ms)
        (unmarshal m) (read_batch-Appends ms) out h

  up_to_limit-cut : (limit : ℤ) (es : List Event) → up_to_limit limit 0 es ≡ cut limit es
  up_to_limit-cut (pos zero) es = refl
  up_to_limit-cut (pos (suc n)) es = ground (arith, cut-suc n es)
  up_to_limit-cut (negsuc n) es = ground arith

  -- On an open bus, under a live context and when every fetch succeeds, Replay returns the messages that
  -- can be decoded and match the options, in the order of the stream and up to the limit.
  pub replay_lem :
      (ctx : ℕ → Option String) (faults : ℕ → Fault) (ms : List String)
      → ((n : ℕ) → ctx n ≡ none)
      → ((n : ℕ) → faults n ≡ no_fault)
      → replay unmarshal o false none none ctx faults ms
        ≡ some (ok (cut o.limit (keep_if (match_replay o) (decode_all unmarshal ms))))
  unfolding replay
  replay_lem ctx faults ms live well =
      rw (read_rounds_lem unmarshal o (length ms + 1) 0 ctx faults ms [] live well (omega arith)) (
        ap (λ es. some (ok es))
          (read_batch-Appends ms [] (ground arith)
            ∙ up_to_limit-cut o.limit (keep_if (match_replay o) (decode_all unmarshal ms))))

insert_by-least :
    (e : Event) (es : List Event)
    → All (λ f. e.timestamp ≤ f.timestamp) es
    → insert_by time_of e es ≡ e ∷ es
insert_by-least e [] h = refl
insert_by-least e (f ∷ es) h = ground arith

sort_by-sorted : (es : List Event) → IsSortedBy time_of es → sort_by time_of es ≡ es
sort_by-sorted [] h = refl
sort_by-sorted (e ∷ es) h = rw (sort_by-sorted es h.1) (insert_by-least e es h.0)

keep_if-IsSortedBy :
    (p : Event → Bool) (es : List Event) → IsSortedBy time_of es → IsSortedBy time_of (keep_if p es)
keep_if-IsSortedBy p [] h = tt
keep_if-IsSortedBy p (e ∷ es) h =
    if_cases (IsSortedBy time_of) (p e) (λ k. (All-keep_if _ p es h.0, keep_if-IsSortedBy p es h.1))
      (λ g. keep_if-IsSortedBy p es h.1)

-- If the stream holds the events of a memory store in the same order, and that is by rising
-- timestamp, Replay of the NATS bus finds what the query behind Replay of the local bus finds: under
-- a live context, on an open bus and store, when every fetch succeeds.
pub replay-agrees :
    (unmarshal : String → Option Event) (o : ReplayOptions) (ctx : ℕ → Option String)
    (faults : ℕ → Fault) (ms : List String) (s : MemoryEventStore)
    → ((n : ℕ) → ctx n ≡ none)
    → ((n : ℕ) → faults n ≡ no_fault)
    → s.closed ≡ false
    → decode_all unmarshal ms ≡ map (λ n. n.event) s.entries
    → IsSortedBy time_of (map (λ n. n.event) s.entries)
    → (es : List Event) × (replay unmarshal o false none none ctx faults ms ≡ some (ok es))
      × (query none (replay_query o) s ≡ Store.ok es)
unfolding query Store.matching
replay-agrees unmarshal o ctx faults ms s live well open_ same sorted =
    let es = map (λ n. n.event) s.entries in
    let kept = keep_if (match_query (replay_query o)) es in
    (
      cut o.limit (keep_if (match_replay o) es),
      subst
          (λ l.
            replay unmarshal o false none none ctx faults ms
            ≡ some (ok (cut o.limit (keep_if (match_replay o) l))))
          same (replay_lem unmarshal o ctx faults ms live well),
      rw open_ (
          ap Store.ok (
            ap (page (pos 0) o.limit) (sort_by-sorted kept (keep_if-IsSortedBy _ es sorted))
            ∙ (page-cut 0 o.limit kept
                ∙ ap (cut o.limit)
                    (sym (keep_if_agree _ _ es (All-of es (match_replay-match_query o))))))),
    )

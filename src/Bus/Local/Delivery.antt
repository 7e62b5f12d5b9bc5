-- ===== src/Bus/Local/Delivery.antt =====
-- Which events reach a subscriber, and in what order (`fanout` of internal/core/local_bus.go).
use mathlib.Core.List.{append-nil, append_assoc, map-id, map-map}
use openspace_os_core.Base.{
  if_of_false, if_of_true, subst, ℕ, ◌+◌, ◌≤◌, ◌<◌, ◌≡◌, refl, ◌∙◌, ap, sym, Bool, true, false,
  List, [], ◌∷◌, ◌++◌, map, arith, length, length-append, keep_if, count_if, Bool-cases, inl, inr,
  All, ltb, ◌⊎◌,
}
use openspace_os_core.Event.{Event}
use openspace_os_core.Bus.Local.{
  Subscriber, LocalBus, matches, offer, offer_all, fanout, fanout_all,
}

-- No buffer holds more than its channel's capacity.
abbrev pub IsBounded : List Subscriber → Type 0
IsBounded = All (λ s. length s.buffer ≤ s.capacity)

abbrev wants : Subscriber → Event → Bool
wants s e = matches s e.event_type

-- One subscriber's share of a fan-out.
abbrev pub offered : Event → Subscriber → Subscriber
offered e s = (offer e s).0

pub offer_all-map : (e : Event) (ss : List Subscriber) → (offer_all e ss).0 ≡ map (offered e) ss
unfolding offer_all
offer_all-map e [] = refl
offer_all-map e (s ∷ ss) = ap (◌∷◌ (offered e s)) (offer_all-map e ss)

-- How many events the buffers hold.
abbrev pub buffered : List Subscriber → ℕ
buffered [] = 0
buffered (s ∷ ss) = length s.buffer + buffered ss

offer-counts :
    (e : Event) (s : Subscriber)
    → length (offer e s).0.buffer + (offer e s).1
      ≡ length s.buffer + count_if (λ x. wants x e) (s ∷ [])
unfolding offer
offer-counts e s = ground (arith, length-append s.buffer (e ∷ []))

offer_all-counts :
    (e : Event) (ss : List Subscriber)
    → buffered (offer_all e ss).0 + (offer_all e ss).1 ≡ buffered ss + count_if (λ x. wants x e) ss
unfolding offer_all
offer_all-counts e [] = refl
offer_all-counts e (s ∷ ss) = ground (arith, offer-counts e s, offer_all-counts e ss)

offer-IsBounded :
    (e : Event) (s : Subscriber)
    → length s.buffer ≤ s.capacity
    → length (offered e s).buffer ≤ (offered e s).capacity
unfolding offer
offer-IsBounded e s h = ground (arith, length-append s.buffer (e ∷ []))

-- A run of fan-outs, as one subscriber sees it.
abbrev pub offered_all : List Event → Subscriber → Subscriber
offered_all [] s = s
offered_all (e ∷ es) s = offered_all es (offered e s)

offered-same :
    (e : Event) (s : Subscriber)
    → ((offered e s).id ≡ s.id)
      × ((offered e s).event_types ≡ s.event_types)
      × ((offered e s).capacity ≡ s.capacity)
unfolding offer
offered-same e s = (ground arith, ground arith, ground arith)

offered-wanted :
    (e : Event) (s : Subscriber)
    → wants s e ≡ true
    → length s.buffer < s.capacity
    → (offered e s).buffer ≡ s.buffer ++ (e ∷ [])
unfolding offer
offered-wanted e s h room = ground arith

offered-unwanted : (e : Event) (s : Subscriber) → wants s e ≡ false → offered e s ≡ s
unfolding offer
offered-unwanted e s h = ground arith

wants-offered : (e x : Event) (s : Subscriber) → wants (offered e s) x ≡ wants s x
unfolding matches
wants-offered e x s = rw (offered-same e s).1

keep-wants-offered :
    (e : Event) (s : Subscriber) (es : List Event)
    → keep_if (wants (offered e s)) es ≡ keep_if (wants s) es
keep-wants-offered e s [] = refl
keep-wants-offered e s (x ∷ es) = ground (arith, wants-offered e x s, keep-wants-offered e s es)

count-wants-offered :
    (e : Event) (s : Subscriber) (es : List Event)
    → count_if (wants (offered e s)) es ≡ count_if (wants s) es
count-wants-offered e s [] = refl
count-wants-offered e s (x ∷ es) = ground (arith, wants-offered e x s, count-wants-offered e s es)

-- With room for all of them, the subscriber gets exactly the events that it wants, in order.
offered_all-exact :
    (es : List Event) (s : Subscriber)
    → length s.buffer + count_if (wants s) es ≤ s.capacity
    → (offered_all es s).buffer ≡ s.buffer ++ keep_if (wants s) es
offered_all-exact [] s room = sym (append-nil s.buffer)
offered_all-exact (e ∷ es) s room = elim (Bool-cases (wants s e)) [
  | inl yes_ ↦
      let got = offered-wanted e s yes_ (ground arith) in
      let (_, _, cap) = offered-same e s in
      let rest = offered_all-exact es (offered e s) (
        ground (
          arith,
          ap length got,
          cap,
          length-append s.buffer (e ∷ []),
          count-wants-offered e s es,
        )) in
      rest
      ∙ (ap (λ l. l ++ keep_if (wants (offered e s)) es) got
          ∙ (append_assoc s.buffer (e ∷ []) (keep_if (wants (offered e s)) es)
              ∙ (ap (λ l. s.buffer ++ (e ∷ l)) (keep-wants-offered e s es)
                  ∙ ap (◌++◌ s.buffer) (sym (if_of_true _ _ yes_)))))
  | inr no_ ↦
      ap (λ x. (offered_all es x).buffer) (offered-unwanted e s no_)
      ∙ (offered_all-exact es s (ground arith) ∙ ap (◌++◌ s.buffer) (sym (if_of_false _ _ no_)))
]

pub fanout_all-map :
    (es : List Event) (b : LocalBus)
    → (fanout_all es b).subscribers ≡ map (offered_all es) b.subscribers
unfolding fanout_all fanout
fanout_all-map [] b = sym (map-id b.subscribers)
fanout_all-map (e ∷ es) b =
    fanout_all-map es (fanout e b)
    ∙ (ap (map (offered_all es)) (offer_all-map e b.subscribers)
        ∙ map-map (offered_all es) (offered e) b.subscribers)

-- Each subscriber, before and after: the same id, and exactly the events that it wants, in the order
-- given, behind those that it held, unless its buffer has no room for them all.
abbrev pub Delivers : List Event → List Subscriber → List Subscriber → Type 0
Delivers es [] [] = Unit
Delivers es (s ∷ ss) (t ∷ ts) =
    (t.id ≡ s.id)
    × ((s.capacity < length s.buffer + count_if (λ e. matches s e.event_type) es)
        ⊎ (t.buffer ≡ s.buffer ++ keep_if (λ e. matches s e.event_type) es))
    × Delivers es ss ts
Delivers es _ _ = ⊥

offered_all-id : (es : List Event) (s : Subscriber) → (offered_all es s).id ≡ s.id
offered_all-id [] s = refl
offered_all-id (e ∷ es) s = offered_all-id es (offered e s) ∙ (offered-same e s).0

pub Delivers-map :
    (es : List Event) (ss : List Subscriber) → Delivers es ss (map (offered_all es) ss)
Delivers-map es [] = tt
Delivers-map es (s ∷ ss) = (
  offered_all-id es s,
  elim (Bool-cases (ltb s.capacity (length s.buffer + count_if (wants s) es))) [
    | inl full ↦ inl (ground arith)
    | inr room ↦ inr (offered_all-exact es s (ground arith))
  ],
  Delivers-map es ss,
)

-- Fanning events out one after the other keeps the subscribers, and every subscriber gets exactly
-- the events of its types, in order, unless its buffer has no room for them all.
pub fanout_all-Delivers :
    (es : List Event) (b : LocalBus) → Delivers es b.subscribers (fanout_all es b).subscribers
fanout_all-Delivers es b =
    subst (Delivers es b.subscribers) (sym (fanout_all-map es b)) (Delivers-map es b.subscribers)

-- How many deliveries the events ask for.
abbrev pub wanted : List Event → List Subscriber → ℕ
wanted [] ss = 0
wanted (e ∷ es) ss = count_if (λ s. matches s e.event_type) ss + wanted es ss

offer_all-IsBounded :
    (e : Event) (ss : List Subscriber) → IsBounded ss → IsBounded (offer_all e ss).0
unfolding offer_all
offer_all-IsBounded e [] h = h
offer_all-IsBounded e (s ∷ ss) (h, hs) = (offer-IsBounded e s h, offer_all-IsBounded e ss hs)

offer_all-wanted :
    (e x : Event) (ss : List Subscriber)
    → count_if (λ s. wants s x) (offer_all e ss).0 ≡ count_if (λ s. wants s x) ss
unfolding offer_all
offer_all-wanted e x [] = refl
offer_all-wanted e x (s ∷ ss) = ground (arith, wants-offered e x s, offer_all-wanted e x ss)

fanout-wanted :
    (e : Event) (b : LocalBus) (es : List Event)
    → wanted es (fanout e b).subscribers ≡ wanted es b.subscribers
unfolding fanout
fanout-wanted e b [] = refl
fanout-wanted e b (x ∷ es) =
    ground (arith, offer_all-wanted e x b.subscribers, fanout-wanted e b es)

-- From buffers within their capacities, fanning events out keeps them so, and counts: each delivery that the
-- events ask for is one more buffered event, or one more dropped event.
pub fanout_all-accounts :
    (es : List Event) (b : LocalBus)
    → IsBounded b.subscribers
    → let t = fanout_all es b in
      IsBounded t.subscribers
      × (buffered t.subscribers + t.dropped_count
          ≡ buffered b.subscribers + b.dropped_count + wanted es b.subscribers)
unfolding fanout_all fanout
fanout_all-accounts [] b h = (h, ground arith)
fanout_all-accounts (e ∷ es) b h =
    let (bounded, count) =
      fanout_all-accounts es (fanout e b) (offer_all-IsBounded e b.subscribers h) in
    (bounded, ground (arith, count, offer_all-counts e b.subscribers, fanout-wanted e b es))

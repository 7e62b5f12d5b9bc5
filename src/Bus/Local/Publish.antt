-- ===== src/Bus/Local/Publish.antt =====
-- Publishing against the dispatch loop (`Publish`, `dispatchLoop` and `Close` of
-- internal/core/local_bus.go): what is stored and what the subscribers get in the end.
use mathlib.Core.List.{map-append, append-nil, append_assoc, map-id, map-map}
use openspace_os_core.Base.{
  ◌↔◌, if_of_false, ltb, if_cases, subst, ℕ, ◌≡◌, refl, ◌∙◌, ap, sym, true, false, List, [], ◌∷◌,
  ◌++◌, map, arith, length, Bool-cases, inl, inr, Option, none, some, String,
}
use openspace_os_core.Event.{Event}
use openspace_os_core.Event.Schema.{validate, Invalid}
use openspace_os_core.Store.{ok, err, append, Answer, MemoryEventStore}
use openspace_os_core.Bus.Local.{
  dispatch_from, Subscriber, LocalBus, fanout, dispatch, send, publish, Published, published,
  rejected, close_bus, with_trace, push, stored, validated, publish_buffer_size,
}
use openspace_os_core.Bus.Local.Delivery.{
  Delivers, offered, offered_all, offer_all-map, Delivers-map, fanout_all-map,
}

abbrev pub IsPublished : Published → Type 0
IsPublished (published t) = Unit
IsPublished (rejected x) = ⊥

-- A publisher's call, or a round of the dispatch loop.
pub data BusStep : Type 0 where
  publishing : Option String → String → ℕ → Event → BusStep
  dispatching : BusStep

-- The bus after a step, with the event that the step accepted, as it was stored.
abbrev after_publish : Event → LocalBus → Published → List Event × LocalBus
after_publish e b (published t) = (e ∷ [], t)
after_publish e b (rejected x) = ([], b)

unfoldable pub bus_step : BusStep → LocalBus → List Event × LocalBus
bus_step (publishing ctx trace now e) b =
    after_publish (with_trace trace e) b (publish ctx trace now (some e) b)
bus_step dispatching b = ([], dispatch b)

-- The accepted events, in order, and the bus after all steps.
unfoldable pub run_bus : List BusStep → LocalBus → List Event × LocalBus
run_bus [] b = ([], b)
run_bus (m ∷ ms) b = let (es, t) = bus_step m b in let (fs, u) = run_bus ms t in (es ++ fs, u)

abbrev stored_events : LocalBus → List Event
stored_events b = map (λ m. m.event) b.store.entries

-- The subscribers once the dispatch loop has emptied the channel.
abbrev settled : LocalBus → List Subscriber
settled b = map (offered_all b.publish_ch) b.subscribers

offered_all-append :
    (es fs : List Event) (s : Subscriber)
    → offered_all (es ++ fs) s ≡ offered_all fs (offered_all es s)
offered_all-append [] fs s = refl
offered_all-append (e ∷ es) fs s = offered_all-append es fs (offered e s)

map-offered_all-append :
    (es fs : List Event) (ss : List Subscriber)
    → map (offered_all (es ++ fs)) ss ≡ map (offered_all fs) (map (offered_all es) ss)
map-offered_all-append es fs [] = refl
map-offered_all-append es fs (s ∷ ss) =
    ap (◌∷◌ (offered_all (es ++ fs) s)) (map-offered_all-append es fs ss)
    ∙ ap (λ x. x ∷ map (offered_all fs) (map (offered_all es) ss)) (offered_all-append es fs s)

-- What a step does: the events `es` go into the store and, in the end, to the subscribers.
abbrev Accepts : List Event → LocalBus → LocalBus → Type 0
Accepts es b t =
    (stored_events t ≡ stored_events b ++ es)
    × (settled t ≡ map (offered_all es) (settled b))
    × (t.done ≡ b.done)

Accepts-none : (b : LocalBus) → Accepts [] b b
Accepts-none b = (sym (append-nil _), sym (map-id _), refl)

Accepts-trans :
    (es fs : List Event) (b t u : LocalBus)
    → Accepts es b t
    → Accepts fs t u
    → Accepts (es ++ fs) b u
Accepts-trans es fs b t u (s1, v1, d1) (s2, v2, d2) = (
  s2 ∙ (ap (λ l. l ++ fs) s1 ∙ append_assoc (stored_events b) es fs),
  v2 ∙ (ap (map (offered_all fs)) v1 ∙ sym (map-offered_all-append es fs (settled b))),
  d2 ∙ d1,
)

-- The same of the steps that leave the store alone.
abbrev Passes : List Event → LocalBus → LocalBus → Type 0
Passes es b t =
    (t.store ≡ b.store) × (settled t ≡ map (offered_all es) (settled b)) × (t.done ≡ b.done)

dispatch_from-Passes :
    (es : List Event) (b : LocalBus)
    → Passes [] (record b { publish_ch = es }) (dispatch_from es (record b { publish_ch = es }))
unfolding fanout
dispatch_from-Passes [] b = (refl, sym (map-id _), refl)
dispatch_from-Passes (e ∷ es) b = (
  refl,
  ap (map (offered_all es)) (offer_all-map e b.subscribers)
      ∙ (map-map (offered_all es) (offered e) b.subscribers ∙ sym (map-id _)),
  refl,
)

dispatch-Passes : (b : LocalBus) → Passes [] b (dispatch b)
unfolding dispatch
dispatch-Passes b = dispatch_from-Passes b.publish_ch b

push-Passes : (e : Event) (b : LocalBus) → Passes (e ∷ []) b (push e b)
push-Passes e b = (refl, map-offered_all-append b.publish_ch (e ∷ []) b.subscribers, refl)

send-Passes : (e : Event) (b : LocalBus) → Passes (e ∷ []) b (send e b)
unfolding send
send-Passes e b =
    if_cases (Passes (e ∷ []) b) (ltb (length b.publish_ch) publish_buffer_size)
      (λ yes_. push-Passes e b)
      (λ no_.
        let (s1, v1, d1) = dispatch-Passes b in
        let (s2, v2, d2) = push-Passes e (dispatch b) in
        (s2 ∙ s1, v2 ∙ (ap (map (offered_all (e ∷ []))) (v1 ∙ map-id _)), d2 ∙ d1))

abbrev EndsIn : Event → MemoryEventStore → MemoryEventStore → Type 0
EndsIn e s t = map (λ m. m.event) t.entries ≡ map (λ m. m.event) s.entries ++ (e ∷ [])

abbrev store_of : MemoryEventStore → Answer MemoryEventStore → MemoryEventStore
store_of s (ok t) = t
store_of s (err x) = s

-- `append` puts the event behind the others, when it succeeds.
append-ok :
    (ctx : Option String) (now : ℕ) (e : Event) (s t : MemoryEventStore)
    → append ctx now (some e) s ≡ ok t
    → EndsIn e s t
unfolding append
append-ok none now e s t h = elim (Bool-cases s.closed) [
  | inl yes_ ↦ grind arith
  | inr no_ ↦
      subst (EndsIn e s) (ap (store_of s) (sym (if_of_false _ _ no_) ∙ h))
        (map-append _ s.entries _)
]
append-ok (some x) now e s t h = grind arith

-- `Accepts` of what a publisher's call returns.
abbrev AcceptsIn : Event → LocalBus → Published → Type 0
AcceptsIn e b r = let (es, t) = after_publish e b r in Accepts es b t

stored-Accepts :
    (e : Event) (b : LocalBus) (a : Answer MemoryEventStore)
    → ((t : MemoryEventStore) → a ≡ ok t → EndsIn e b.store t)
    → AcceptsIn e b (stored e b a)
stored-Accepts e b (err x) h = Accepts-none b
stored-Accepts e b (ok store) h =
    let (s1, v1, d1) = send-Passes e (record b { store = store }) in
    (ap (λ u. map (λ m. m.event) u.entries) s1 ∙ h store refl, v1, d1)

validated-Accepts :
    (ctx : Option String) (now : ℕ) (e : Event) (b : LocalBus) (v : Option Invalid)
    → AcceptsIn e b (validated ctx now e b v)
validated-Accepts ctx now e b (some x) = Accepts-none b
validated-Accepts ctx now e b none =
    stored-Accepts e b (append ctx now (some e) b.store) (append-ok ctx now e b.store)

bus_step-Accepts : (m : BusStep) (b : LocalBus) → let (es, t) = bus_step m b in Accepts es b t
unfolding bus_step publish
bus_step-Accepts (publishing ctx trace now e) b =
    if_cases (AcceptsIn (with_trace trace e) b) b.done (λ yes_. Accepts-none b)
      (λ no_. validated-Accepts ctx now (with_trace trace e) b (validate b.registry _))
bus_step-Accepts dispatching b =
    let (s, v, d) = dispatch-Passes b in
    (ap (λ u. map (λ m. m.event) u.entries) s ∙ sym (append-nil _), v, d)

run_bus-Accepts : (ms : List BusStep) (b : LocalBus) → let (es, t) = run_bus ms b in Accepts es b t
unfolding run_bus
run_bus-Accepts [] b = Accepts-none b
run_bus-Accepts (m ∷ ms) b =
    let t = (bus_step m b).1 in
    Accepts-trans (bus_step m b).0 (run_bus ms t).0 b t (run_bus ms t).1 (bus_step-Accepts m b)
      (run_bus-Accepts ms t)

close_bus-settled : (b : LocalBus) → b.done ≡ false → (close_bus b).subscribers ≡ settled b
unfolding close_bus
close_bus-settled b open_ =
    ap (λ (t : LocalBus). t.subscribers) (if_of_false _ _ open_)
    ∙ fanout_all-map b.publish_ch (record b { publish_ch = []; done = true })

-- From an open bus with nothing in the channel, let publishes that do not overlap and rounds of the
-- dispatch loop follow each other in any order, and let `Close` come when no publish is under way. The events of the publishes that succeeded, in their order, are in the store behind those
-- that it held; and once `Close` has emptied the channel, every subscriber has got exactly those of
-- them that it wants, in the same order, unless its buffer has no room for them all.
pub run_bus-Delivers :
    (ms : List BusStep) (b : LocalBus)
    → b.publish_ch ≡ []
    → b.done ≡ false
    → let (es, t) = run_bus ms b in
      (map (λ m. m.event) t.store.entries ≡ map (λ m. m.event) b.store.entries ++ es)
      × Delivers es b.subscribers (close_bus t).subscribers
run_bus-Delivers ms b empty open_ =
    let es = (run_bus ms b).0 in
    let t = (run_bus ms b).1 in
    let (s, v, d) = run_bus-Accepts ms b in
    let start = ap (λ l. map (offered_all l) b.subscribers) empty ∙ map-id b.subscribers in
    (
      s,
      subst (Delivers es b.subscribers)
          (sym (close_bus-settled t (d ∙ open_) ∙ (v ∙ ap (map (offered_all es)) start)))
          (Delivers-map es b.subscribers),
    )

-- A non-nil event is published exactly when the bus is not closed, the event with its trace id is
-- valid for the schemas, the context is live and the store is open.
pub publish-succeeds_iff :
    (ctx : Option String) (trace : String) (now : ℕ) (e : Event) (b : LocalBus)
    → IsPublished (publish ctx trace now (some e) b)
      ↔ (b.done ≡ false)
        × (validate b.registry (some (with_trace trace e)) ≡ none)
        × (ctx ≡ none)
        × (b.store.closed ≡ false)
unfolding publish append
publish-succeeds_iff ctx trace now e b = ground arith

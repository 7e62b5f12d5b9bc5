-- ===== src/Bus/Nats/Consumer/Feed.antt =====
-- What a subscriber of internal/core/nats_bus.go receives.
use mathlib.Core.List.{append_assoc, append-nil}
use openspace_os_core.Base.{
  ℕ, ◌≡◌, refl, ◌∙◌, ap, sym, String, Bool, true, false, not, ◌&&◌, Option, none, some, List, [],
  ◌∷◌, ◌++◌, arith, ltb, length, keep_if, if_cases, Bool-cases, inl, inr, ℤ,
}
use openspace_os_core.Event.{Event}
use openspace_os_core.Bus.Local.{SubscribeOptions}
use openspace_os_core.Store.{has_type}
use openspace_os_core.Bus.Nats.History.{decode_all, decode_one}
use openspace_os_core.Bus.Nats.Consumer.{
  NatsSubscriber, Phase, at_head, in_next, sending, finished, panicked, Next, timeout, fault,
  proceed, takes, received, send_event, in_iterator, next_message, from_phase, advance, deliver,
  receive, take_first, unsubscribe, SubscriberMove, delivered, advanced, taking, unsubscribing,
  move, new_subscriber, is_over,
}

-- The moves in order, each with whether the bus is closed.
unfoldable pub follow :
    (String → Option Event) → List (Bool × SubscriberMove) → NatsSubscriber → NatsSubscriber
follow unmarshal [] s = s
follow unmarshal ((done, m) ∷ ms) s = follow unmarshal ms (move unmarshal done m s)

-- The messages that come.
abbrev message_of : SubscriberMove → List String → List String
message_of (delivered m) ms = m ∷ ms
message_of (advanced quit n) ms = ms
message_of taking ms = ms
message_of unsubscribing ms = ms

unfoldable pub messages : List (Bool × SubscriberMove) → List String
messages [] = []
messages ((done, m) ∷ ms) = message_of m (messages ms)

-- Without types every event is asked for, and else those of the types.
abbrev pub is_for : List String → Event → Bool
is_for [] e = true
is_for (t ∷ ts) e = has_type e.event_type (t ∷ ts)

is_for-takes : (types : List String) (e : Event) → is_for types e ≡ takes types e
unfolding takes
is_for-takes [] e = refl
is_for-takes (t ∷ ts) e = refl

-- Of the messages, the events of the types asked for.
abbrev pub wanted : (String → Option Event) → List String → List String → List Event
wanted unmarshal types ms = keep_if (is_for types) (decode_all unmarshal ms)

abbrev pub held : Phase → List Event
held (sending e) = e ∷ []
held at_head = []
held in_next = []
held finished = []
held panicked = []

abbrev pub is_alive : NatsSubscriber → Bool
is_alive s = s.open_ && not (is_over s.phase)

module _ (unmarshal : String → Option Event) where
  decode_one-append :
      (d : Option Event) (es fs : List Event) → decode_one d (es ++ fs) ≡ decode_one d es ++ fs
  decode_one-append none es fs = refl
  decode_one-append (some e) es fs = refl

  decode_all-append :
      (ms ns : List String)
      → decode_all unmarshal (ms ++ ns) ≡ decode_all unmarshal ms ++ decode_all unmarshal ns
  unfolding decode_all
  decode_all-append [] ns = refl
  decode_all-append (m ∷ ms) ns =
      ap (decode_one (unmarshal m)) (decode_all-append ms ns)
      ∙ decode_one-append (unmarshal m) (decode_all unmarshal ms) (decode_all unmarshal ns)

  keep_if-append :
      (p : Event → Bool) (es fs : List Event) → keep_if p (es ++ fs) ≡ keep_if p es ++ keep_if p fs
  keep_if-append p [] fs = refl
  keep_if-append p (e ∷ es) fs = ground (arith, keep_if-append p es fs)

  wanted-append :
      (types ms ns : List String)
      → wanted unmarshal types (ms ++ ns) ≡ wanted unmarshal types ms ++ wanted unmarshal types ns
  wanted-append types ms ns =
      ap (keep_if (is_for types)) (decode_all-append ms ns)
      ∙ keep_if-append (is_for types) (decode_all unmarshal ms) (decode_all unmarshal ns)

  wanted-cons :
      (types : List String) (m : String) (ms : List String)
      → wanted unmarshal types (m ∷ ms)
        ≡ held (received types (unmarshal m)) ++ wanted unmarshal types ms
  unfolding decode_all
  wanted-cons types m ms = go (unmarshal m)
    where
      go :
          (d : Option Event)
          → keep_if (is_for types) (decode_one d (decode_all unmarshal ms))
            ≡ held (received types d) ++ wanted unmarshal types ms
      go none = refl
      go (some e) =
          rw (is_for-takes types e)
            (elim (Bool-cases (takes types e)) [ inl t ↦ rw t refl | inr f ↦ rw f refl ])

  -- Of the messages seen, what the subscriber has and what is still to come for it.
  record Fed (s : NatsSubscriber) (seen : List String) : Type 0 where
    rest : List Event
    all : (s.taken ++ s.buffer) ++ rest ≡ wanted unmarshal s.event_types seen
    coming : is_alive s ≡ true → rest ≡ held s.phase ++ wanted unmarshal s.event_types s.pending
    ends : s.stopped ≡ true → is_alive s ≡ false

  deliver-Fed :
      (m : String) (s : NatsSubscriber) (seen : List String)
      → Fed s seen
      → Fed (deliver m s) (seen ++ (m ∷ []))
  unfolding deliver
  deliver-Fed m s seen f =
      if_cases (λ t. Fed t (seen ++ (m ∷ []))) s.stopped
        (λ stopped. record {
          rest = f.rest ++ wanted unmarshal s.event_types (m ∷ []);
          all = grown;
          coming = λ h. absurd (ground (arith, f.ends stopped));
          ends = f.ends;
        })
        (λ runs. record {
          rest = f.rest ++ wanted unmarshal s.event_types (m ∷ []);
          all = grown;
          coming = λ h.
              ap (λ l. l ++ wanted unmarshal s.event_types (m ∷ [])) (f.coming h)
              ∙ (append_assoc (held s.phase) (wanted unmarshal s.event_types s.pending) _
                  ∙ ap (λ l. held s.phase ++ l)
                      (sym (wanted-append s.event_types s.pending (m ∷ []))));
          ends = λ h. absurd (ground arith);
        })
    where
      grown :
          (s.taken ++ s.buffer) ++ (f.rest ++ wanted unmarshal s.event_types (m ∷ []))
          ≡ wanted unmarshal s.event_types (seen ++ (m ∷ []))
      grown =
          sym (append_assoc (s.taken ++ s.buffer) f.rest _)
          ∙ (ap (λ l. l ++ wanted unmarshal s.event_types (m ∷ [])) f.all
              ∙ sym (wanted-append s.event_types seen (m ∷ [])))

  -- A goroutine that has ended leaves things as they are.
  ended-Fed :
      (s t : NatsSubscriber) (seen : List String)
      → t.taken ≡ s.taken
      → t.buffer ≡ s.buffer
      → t.event_types ≡ s.event_types
      → is_alive t ≡ false
      → Fed s seen
      → Fed t seen
  ended-Fed s t seen a b c e f = record {
    rest = f.rest;
    all = rw (a, b, c) f.all;
    coming = λ h. absurd (ground arith);
    ends = λ h. e;
  }

  next_message-Fed :
      (pending : List String) (s : NatsSubscriber) (seen : List String)
      → s.pending ≡ pending
      → s.phase ≡ in_next
      → Fed s seen
      → Fed (next_message unmarshal pending s) seen
  next_message-Fed [] s seen p h f = f
  next_message-Fed (m ∷ ms) s seen p h f = record {
    rest = f.rest;
    all = f.all;
    coming = λ a.
        let before = f.coming (ground arith) in
        before
        ∙ (ap (λ l. held s.phase ++ wanted unmarshal s.event_types l) p
            ∙ (ap (λ l. held l ++ wanted unmarshal s.event_types (m ∷ ms)) h
                ∙ wanted-cons s.event_types m ms));
    ends = λ a. ground (arith, f.ends a);
  }

  send_event-Fed :
      (done quit : Bool) (e : Event) (s : NatsSubscriber) (seen : List String)
      → s.phase ≡ sending e
      → Fed s seen
      → Fed (send_event unmarshal done quit e s) seen
  send_event-Fed done quit e s seen h f =
      if_cases (λ t. Fed t seen) (done && quit) (λ q. ended)
        (λ q.
          if_cases (λ t. Fed t seen) (not s.open_)
            (λ shut. ended-Fed s _ seen refl refl refl (ground arith) f)
            (λ open_.
              if_cases (λ t. Fed t seen) (ltb (length s.buffer) s.capacity)
                (λ room. pushed (ground arith))
                (λ full. if_cases (λ t. Fed t seen) done (λ d. ended) (λ d. f))))
    where
      ended : Fed (record s { phase = finished; stopped = true }) seen
      ended = ended-Fed s _ seen refl refl refl (ground arith) f

      pushed :
          s.open_ ≡ true → Fed (record s { phase = at_head; buffer = s.buffer ++ (e ∷ []) }) seen
      pushed o =
          let alive : is_alive s ≡ true = rw (o, h) refl in
          let before =
            f.coming alive ∙ ap (λ l. held l ++ wanted unmarshal s.event_types s.pending) h in
          record {
            rest = wanted unmarshal s.event_types s.pending;
            all =
                ap (λ l. l ++ wanted unmarshal s.event_types s.pending)
                  (sym (append_assoc s.taken s.buffer (e ∷ [])))
                ∙ (append_assoc (s.taken ++ s.buffer) (e ∷ []) _
                    ∙ (ap (λ l. (s.taken ++ s.buffer) ++ l) (sym before) ∙ f.all));
            coming = λ a. refl;
            ends = λ a. absurd (ground (arith, f.ends a));
          }

  in_iterator-Fed :
      (n : Next) (s : NatsSubscriber) (seen : List String)
      → s.phase ≡ in_next
      → Fed s seen
      → Fed (in_iterator unmarshal n s) seen
  in_iterator-Fed timeout s seen h f =
      if_cases (λ t. Fed t seen) s.stopped (λ a. ended-Fed s _ seen refl refl refl (ground arith) f)
        (λ a. record {
          rest = f.rest;
          all = f.all;
          coming = λ alive.
              f.coming (ground arith)
              ∙ ap (λ l. held l ++ wanted unmarshal s.event_types s.pending) h;
          ends = λ stopped. absurd (ground arith);
        })
  in_iterator-Fed fault s seen h f = ended-Fed s _ seen refl refl refl (ground arith) f
  in_iterator-Fed proceed s seen h f =
      if_cases (λ t. Fed t seen) s.stopped (λ a. ended-Fed s _ seen refl refl refl (ground arith) f)
        (λ a. next_message-Fed s.pending s seen refl h f)

  advance-Fed :
      (done quit : Bool) (n : Next) (p : Phase) (s : NatsSubscriber) (seen : List String)
      → s.phase ≡ p
      → Fed s seen
      → Fed (from_phase unmarshal p done quit n s) seen
  advance-Fed done quit n at_head s seen h f =
      if_cases (λ t. Fed t seen) done (λ d. ended-Fed s _ seen refl refl refl (ground arith) f)
        (λ d. record {
          rest = f.rest;
          all = f.all;
          coming = λ alive.
              f.coming (ground arith)
              ∙ ap (λ l. held l ++ wanted unmarshal s.event_types s.pending) h;
          ends = λ stopped. ground (arith, f.ends stopped);
        })
  advance-Fed done quit n in_next s seen h f = in_iterator-Fed n s seen h f
  advance-Fed done quit n (sending e) s seen h f = send_event-Fed done quit e s seen h f
  advance-Fed done quit n finished s seen h f = f
  advance-Fed done quit n panicked s seen h f = f

  receive-Fed :
      (buffer : List Event) (s : NatsSubscriber) (seen : List String)
      → s.buffer ≡ buffer
      → Fed s seen
      → Fed (take_first buffer s) seen
  receive-Fed [] s seen h f = f
  receive-Fed (e ∷ es) s seen h f = record {
    rest = f.rest;
    all =
        ap (λ l. l ++ f.rest) (append_assoc s.taken (e ∷ []) es ∙ ap (λ l. s.taken ++ l) (sym h))
        ∙ f.all;
    coming = f.coming;
    ends = f.ends;
  }

  unsubscribe-Fed :
      (s : NatsSubscriber) (seen : List String) → Fed s seen → Fed (unsubscribe s) seen
  unfolding unsubscribe
  unsubscribe-Fed s seen f =
      if_cases (λ t. Fed t seen) s.registered (λ r. ended-Fed s _ seen refl refl refl refl f)
        (λ r. f)

  follow-Fed :
      (ms : List (Bool × SubscriberMove)) (s : NatsSubscriber) (seen : List String)
      → Fed s seen
      → Fed (follow unmarshal ms s) (seen ++ messages ms)
  unfolding follow messages move advance receive
  follow-Fed [] s seen f = rw (append-nil seen) f
  follow-Fed ((done, delivered m) ∷ ms) s seen f =
      rw (← append_assoc seen (m ∷ []) (messages ms))
        (follow-Fed ms (deliver m s) (seen ++ (m ∷ [])) (deliver-Fed m s seen f))
  follow-Fed ((done, advanced quit n) ∷ ms) s seen f =
      follow-Fed ms (advance unmarshal done quit n s) seen
        (advance-Fed done quit n s.phase s seen refl f)
  follow-Fed ((done, taking) ∷ ms) s seen f =
      follow-Fed ms (receive s) seen (receive-Fed s.buffer s seen refl f)
  follow-Fed ((done, unsubscribing) ∷ ms) s seen f =
      follow-Fed ms (unsubscribe s) seen (unsubscribe-Fed s seen f)

-- Whatever happens at a new subscriber, in whatever order, what it has been given and what waits in
-- its channel are a first part, in order and without loss, of the events of its types among the
-- messages that came for it; and while it is subscribed and its goroutine runs, what is missing is
-- only what the goroutine holds and what waits at its iterator.
pub follow-feeds :
    (unmarshal : String → Option Event) (id : ℕ) (size : ℤ) (o : SubscribeOptions)
    (ms : List (Bool × SubscriberMove))
    → let s = follow unmarshal ms (new_subscriber id size o) in
      (rest : List Event) × ((s.taken ++ s.buffer) ++ rest
        ≡ wanted unmarshal s.event_types (messages ms))
      × (is_alive s ≡ true → rest ≡ held s.phase ++ wanted unmarshal s.event_types s.pending)
unfolding new_subscriber decode_all
follow-feeds unmarshal id size o ms =
    let start : Fed unmarshal (new_subscriber id size o) [] = record {
      rest = [];
      all = refl;
      coming = λ h. refl;
      ends = λ h. absurd (ground arith);
    } in
    let f = follow-Fed unmarshal ms (new_subscriber id size o) [] start in (f.rest, f.all, f.coming)

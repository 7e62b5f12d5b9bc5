-- ===== src/Bus/Nats/Consumer/Shutdown.antt =====
-- How Close and the unsubscribe function of internal/core/nats_bus.go end, or do not.
use openspace_os_core.Base.{
  ℕ, suc, ◌-◌, ◌≤◌, ◌≡◌, refl, String, Bool, true, false, not, ◌&&◌, ◌||◌, Option, none, some, List,
  [], ◌∷◌, ◌++◌, map, arith, if◌then◌else◌, All, Bool-cases, inl, inr, ℤ, ◌==◌, if_cases,
}
use openspace_os_core.Event.{Event}
use openspace_os_core.Store.{is_empty}
use openspace_os_core.Bus.Local.{SubscribeOptions}
use openspace_os_core.Bus.Nats.Consumer.{
  NatsSubscriber, Phase, at_head, in_next, sending, finished, panicked, timeout, fault, proceed,
  takes, received, advance, deliver, receive, unsubscribe, SubscriberMove, delivered, advanced,
  taking, unsubscribing, move, new_subscriber, is_over, NatsBus, Move, subscribed, published, moved,
  closing, move_at, step, run, close_returns,
}
use openspace_os_core.Bus.Nats.Consumer.Feed.{follow}

abbrev pub waits : Phase → Bool
waits in_next = true
waits at_head = false
waits finished = false
waits panicked = false
waits (sending e) = false

-- The goroutine stands in `Next`, and nothing has come for it.
abbrev pub is_idle : ℕ → NatsSubscriber → Bool
is_idle id s = s.id == id && (waits s.phase && (is_empty s.pending && not s.stopped))

abbrev pub has_idle : ℕ → List NatsSubscriber → Bool
has_idle id [] = false
has_idle id (s ∷ ss) = is_idle id s || has_idle id ss

-- Moves at a subscriber by which nothing comes for it, its iterator does not fail, and it is not
-- unsubscribed.
abbrev pub is_silent : SubscriberMove → Bool
is_silent (delivered m) = false
is_silent (advanced quit timeout) = false
is_silent (advanced quit fault) = false
is_silent (advanced quit proceed) = true
is_silent taking = true
is_silent unsubscribing = false

abbrev pub spares : ℕ → Move → Bool
spares id (subscribed o created) = true
spares id (published m) = false
spares id (moved i m) = if i == id then is_silent m else true
spares id closing = true

has_idle-append :
    (id : ℕ) (ss ts : List NatsSubscriber) → has_idle id ss ≡ true → has_idle id (ss ++ ts) ≡ true
has_idle-append id [] ts h = absurd (ground arith)
has_idle-append id (s ∷ ss) ts h = ground (arith, has_idle-append id ss ts)

module _ (unmarshal : String → Option Event) where
  idle_move :
      (id : ℕ) (done : Bool) (m : SubscriberMove) (s : NatsSubscriber)
      → is_silent m ≡ true
      → is_idle id s ≡ true
      → is_idle id (move unmarshal done m s) ≡ true
  unfolding move advance receive
  idle_move id done (delivered m) s q h = absurd (ground arith)
  idle_move id done (advanced quit timeout) s q h = absurd (ground arith)
  idle_move id done (advanced quit fault) s q h = absurd (ground arith)
  idle_move id done (advanced quit proceed) s q h = ground arith
  idle_move id done taking s q h = ground arith
  idle_move id done unsubscribing s q h = absurd (ground arith)

  idle_move_at :
      (id i : ℕ) (done : Bool) (m : SubscriberMove) (ss : List NatsSubscriber)
      → (if i == id then is_silent m else true) ≡ true
      → has_idle id ss ≡ true
      → has_idle id (move_at unmarshal done i m ss) ≡ true
  unfolding move_at
  idle_move_at id i done m [] q h = h
  idle_move_at id i done m (s ∷ ss) q h = elim (Bool-cases (s.id == i)) [
    | inl here ↦ rw here (ground (arith, idle_move id done m s, idle_move_at id i done m ss q))
    | inr there ↦ rw there (ground (arith, idle_move_at id i done m ss q))
  ]

  idle_step :
      (id : ℕ) (m : Move) (b : NatsBus)
      → spares id m ≡ true
      → has_idle id b.subscribers ≡ true
      → has_idle id (step unmarshal m b).subscribers ≡ true
  unfolding step
  idle_step id (subscribed o created) b q h = ground (
    arith,
    has_idle-append id b.subscribers (new_subscriber b.next_sub_id b.push_buffer_size o ∷ []),
  )
  idle_step id (published m) b q h = absurd (ground arith)
  idle_step id (moved i m) b q h = idle_move_at id i b.done m b.subscribers q h
  idle_step id closing b q h = h

idle-open : (id : ℕ) (ss : List NatsSubscriber) → has_idle id ss ≡ true → close_returns ss ≡ false
unfolding close_returns
idle-open id [] h = absurd (ground arith)
idle-open id (s ∷ ss) h = ground (arith, idle-open id ss)

idle_run :
    (unmarshal : String → Option Event) (id : ℕ) (ms : List Move) (b : NatsBus)
    → has_idle id b.subscribers ≡ true
    → All (λ m. spares id m ≡ true) ms
    → has_idle id (run unmarshal ms b).subscribers ≡ true
unfolding run
idle_run unmarshal id [] b h q = h
idle_run unmarshal id (m ∷ ms) b h q =
    idle_run unmarshal id ms (step unmarshal m b) (idle_step unmarshal id m b q.0 h) q.1

-- While a goroutine waits in `Next` for a message, Close does not return: not by any moves by which
-- no message comes, the goroutine's iterator does not fail, and its subscriber is not unsubscribed.
pub close_waits :
    (unmarshal : String → Option Event) (id : ℕ) (ms : List Move) (b : NatsBus)
    → has_idle id b.subscribers ≡ true
    → All (λ m. spares id m ≡ true) ms
    → close_returns (run unmarshal (closing ∷ ms) b).subscribers ≡ false
unfolding run step
close_waits unmarshal id ms b h q =
    idle-open id (run unmarshal ms (record b { done = true })).subscribers
      (idle_run unmarshal id ms (record b { done = true }) h q)

-- One step of every goroutine of a closed bus.
unfoldable pub sweep : (String → Option Event) → Bool → List NatsSubscriber → List NatsSubscriber
sweep unmarshal quit = map (advance unmarshal true quit proceed)

-- The goroutine can go on: no call of `Next` waits for ever, and no send goes to a closed channel.
abbrev pub CanEnd : NatsSubscriber → Type 0
CanEnd s = (s.open_ ≡ true) × ((waits s.phase && is_empty s.pending && not s.stopped) ≡ false)

-- How many steps a goroutine of a closed bus is from its end.
abbrev steps_left : Phase → ℕ
steps_left finished = 0
steps_left panicked = 0
steps_left at_head = 1
steps_left (sending e) = 2
steps_left in_next = 3

over_of_steps : (p : Phase) → steps_left p ≤ 0 → is_over p ≡ true
over_of_steps finished h = refl
over_of_steps panicked h = refl
over_of_steps at_head h = absurd (omega arith)
over_of_steps (sending e) h = absurd (omega arith)
over_of_steps in_next h = absurd (omega arith)

steps_left-le : (p : Phase) → steps_left p ≤ 3
steps_left-le finished = omega arith
steps_left-le panicked = omega arith
steps_left-le at_head = omega arith
steps_left-le (sending e) = omega arith
steps_left-le in_next = omega arith

steps_left-received : (types : List String) (d : Option Event) → steps_left (received types d) ≤ 2
steps_left-received types none = omega arith
steps_left-received types (some e) =
    if_cases (λ p. steps_left p ≤ 2) (takes types e) (λ t. omega arith) (λ f. omega arith)

waits-received : (types : List String) (d : Option Event) → waits (received types d) ≡ false
waits-received types none = refl
waits-received types (some e) =
    if_cases (λ p. waits p ≡ false) (takes types e) (λ t. refl) (λ f. refl)

module _ (unmarshal : String → Option Event) (quit : Bool) where
  falls :
      (p : Phase) (ms : List String) (s : NatsSubscriber)
      → s.phase ≡ p
      → s.pending ≡ ms
      → CanEnd s
      → (steps_left (advance unmarshal true quit proceed s).phase ≤ steps_left p - 1)
        × CanEnd (advance unmarshal true quit proceed s)
  unfolding advance
  falls at_head ms s e m h = ground arith
  falls finished ms s e m h = ground arith
  falls panicked ms s e m h = ground arith
  falls (sending v) ms s e m h = ground arith
  falls in_next [] s e m h = ground arith
  falls in_next (x ∷ xs) s e m h = ground (
    arith,
    steps_left-received s.event_types (unmarshal x),
    waits-received s.event_types (unmarshal x),
  )

  advance-CanEnd :
      (s : NatsSubscriber) (n : ℕ)
      → CanEnd s
      → steps_left s.phase ≤ suc n
      → (steps_left (advance unmarshal true quit proceed s).phase ≤ n)
        × CanEnd (advance unmarshal true quit proceed s)
  advance-CanEnd s n h le =
      let (less, can) = falls s.phase s.pending s refl refl h in (omega arith, can)

ends_one :
    (unmarshal : String → Option Event) (p q r : Bool) (s : NatsSubscriber)
    → CanEnd s
    → is_over
        (advance unmarshal true r proceed
          (advance unmarshal true q proceed (advance unmarshal true p proceed s))).phase
      ≡ true
ends_one unmarshal p q r s h =
    let s1 = advance unmarshal true p proceed s in
    let s2 = advance unmarshal true q proceed s1 in
    let (le1, h1) = advance-CanEnd unmarshal p s 2 h (steps_left-le s.phase) in
    let (le2, h2) = advance-CanEnd unmarshal q s1 1 h1 le1 in
    let (le3, h3) = advance-CanEnd unmarshal r s2 0 h2 le2 in
    over_of_steps (advance unmarshal true r proceed s2).phase le3

-- Once the bus is closed, three steps of every goroutine let Close return, whatever the selects
-- choose, if no channel is closed and no goroutine waits in `Next` without a message.
pub close_ends :
    (unmarshal : String → Option Event) (p q r : Bool) (ss : List NatsSubscriber)
    → All CanEnd ss
    → close_returns (sweep unmarshal r (sweep unmarshal q (sweep unmarshal p ss))) ≡ true
unfolding close_returns sweep
close_ends unmarshal p q r [] h = refl
close_ends unmarshal p q r (s ∷ ss) h =
    rw (ends_one unmarshal p q r s h.0) (close_ends unmarshal p q r ss h.1)

-- A subscriber that is unsubscribed while its goroutine holds an event for it ends the program: with
-- a first message that is for it, the send on the closed channel panics.
pub unsubscribe_panics :
    (unmarshal : String → Option Event) (id : ℕ) (size : ℤ) (o : SubscribeOptions) (m : String)
    (e : Event) (p q r : Bool)
    → unmarshal m ≡ some e
    → takes o.event_types e ≡ true
    → (follow unmarshal
        ((false, delivered m)
          ∷ (false, advanced p proceed)
          ∷ (false, advanced q proceed)
          ∷ (false, unsubscribing)
          ∷ (false, advanced r proceed)
          ∷ [])
        (new_subscriber id size o)).phase
      ≡ panicked
unfolding follow move advance deliver unsubscribe new_subscriber
unsubscribe_panics unmarshal id size o m e p q r h t = ground arith

-- ===== src/Bus/Nats/Consumer.antt =====
-- The subscriptions of internal/core/nats_bus.go: the goroutine that startConsumer starts, the channel
-- of a subscriber, its unsubscribe function, and Close. Each move is one atomic step; a channel is the
-- list of what it buffers. JetStream's iterator is the list of the messages that have come for it:
-- `Next` waits while there is none, fails once the iterator is stopped, and may fail at any time.
pub mod Feed
pub mod Shutdown
use openspace_os_core.Base.{
  ℕ, suc, ◌+◌, ◌%◌, ◌^◌, ℤ, pos, pos_part, leb_ℤ, String, Bool, true, false, not, ◌&&◌, ◌||◌,
  Option, none, some, List, [], ◌∷◌, ◌++◌, map, if◌then◌else◌, ltb, length, ◌==◌,
}
use openspace_os_core.Event.{Event}
use openspace_os_core.Store.{has_type, is_empty}
use openspace_os_core.Bus.Local.{SubscribeOptions}

-- Where the goroutine stands: at the head of its loop, in `Next`, before the send of an event, at its
-- end, or ended by a send on a closed channel, which panics.
pub data Phase : Type 0 where
  at_head in_next finished panicked : Phase
  sending : Event → Phase

-- A subscriber with its goroutine. `taken` is what its owner has received.
pub record NatsSubscriber : Type 0 where
  pub id : ℕ
  pub event_types : List String
  pub capacity : ℕ
  pub registered : Bool
  pub pending : List String
  pub stopped : Bool
  pub phase : Phase
  pub buffer : List Event
  pub open_ : Bool
  pub taken : List Event

-- The filter after decoding.
unfoldable pub takes : List String → Event → Bool
unfolding has_type
takes types e = is_empty types || has_type e.event_type types

-- What `Next` does where it is called: it may time out, fail, or go on.
pub data Next : Type 0 where
  timeout fault proceed : Next

abbrev pub received : List String → Option Event → Phase
received types none = at_head
received types (some e) = if takes types e then sending e else at_head

module _ (unmarshal : String → Option Event) where
  -- `iter.Next()` of an iterator that is not stopped, and what follows it in the loop.
  abbrev pub next_message : List String → NatsSubscriber → NatsSubscriber
  next_message [] s = s
  next_message (m ∷ ms) s = record s { pending = ms; phase = received s.event_types (unmarshal m) }

  abbrev pub in_iterator : Next → NatsSubscriber → NatsSubscriber
  in_iterator timeout s =
      if s.stopped then record s { phase = finished } else record s { phase = at_head }
  in_iterator fault s = record s { phase = finished; stopped = true }
  in_iterator proceed s =
      if s.stopped then record s { phase = finished } else next_message s.pending s

  -- The select of the send, which takes the closed bus first if `quit` says so and both are ready.
  abbrev pub send_event : Bool → Bool → Event → NatsSubscriber → NatsSubscriber
  send_event done quit e s =
      if done && quit
      then record s { phase = finished; stopped = true }
      else if not s.open_
      then record s { phase = panicked }
      else if ltb (length s.buffer) s.capacity
      then record s { phase = at_head; buffer = s.buffer ++ (e ∷ []) }
      else if done
      then record s { phase = finished; stopped = true }
      else s

  abbrev pub from_phase : Phase → Bool → Bool → Next → NatsSubscriber → NatsSubscriber
  from_phase at_head done quit n s =
      if done then record s { phase = finished; stopped = true } else record s { phase = in_next }
  from_phase in_next done quit n s = in_iterator n s
  from_phase (sending e) done quit n s = send_event done quit e s
  from_phase finished done quit n s = s
  from_phase panicked done quit n s = s

  -- One step of the goroutine; one that has to wait stays where it is.
  unfoldable pub advance : Bool → Bool → Next → NatsSubscriber → NatsSubscriber
  advance done quit n s = from_phase s.phase done quit n s

-- JetStream hands a new message to an iterator that is not stopped.
unfoldable pub deliver : String → NatsSubscriber → NatsSubscriber
deliver m s = if s.stopped then s else record s { pending = s.pending ++ (m ∷ []) }

abbrev pub take_first : List Event → NatsSubscriber → NatsSubscriber
take_first [] s = s
take_first (e ∷ es) s = record s { buffer = es; taken = s.taken ++ (e ∷ []) }

-- The owner receives from its channel, which it can do from a closed one too.
unfoldable pub receive : NatsSubscriber → NatsSubscriber
receive s = take_first s.buffer s

-- The function that `Subscribe` returns.
unfoldable pub unsubscribe : NatsSubscriber → NatsSubscriber
unsubscribe s =
    if s.registered then record s { registered = false; stopped = true; open_ = false } else s

-- What happens at one subscriber: a message comes, its goroutine makes a step, its owner receives or
-- unsubscribes.
pub data SubscriberMove : Type 0 where
  delivered : String → SubscriberMove
  advanced : Bool → Next → SubscriberMove
  taking unsubscribing : SubscriberMove

-- The move while the bus is closed or not.
unfoldable pub move :
    (String → Option Event) → Bool → SubscriberMove → NatsSubscriber → NatsSubscriber
move unmarshal done (delivered m) s = deliver m s
move unmarshal done (advanced quit n) s = advance unmarshal done quit n s
move unmarshal done taking s = receive s
move unmarshal done unsubscribing s = unsubscribe s

-- `Subscribe` of an open bus, with the default size of a buffer.
unfoldable pub new_subscriber : ℕ → ℤ → SubscribeOptions → NatsSubscriber
new_subscriber id default_size o = record {
  id = id;
  event_types = o.event_types;
  capacity = pos_part (if leb_ℤ o.buffer_size (pos 0) then default_size else o.buffer_size);
  registered = true;
  pending = [];
  stopped = false;
  phase = at_head;
  buffer = [];
  open_ = true;
  taken = [];
}

pub record NatsBus : Type 0 where
  pub subscribers : List NatsSubscriber
  pub next_sub_id : ℕ
  pub push_buffer_size : ℤ
  pub done : Bool

-- The moves of the bus: `Subscribe` with whether the consumer could be created, a message for every
-- subscriber, a move of one, and the first half of `Close`.
pub data Move : Type 0 where
  subscribed : SubscribeOptions → Bool → Move
  published : String → Move
  moved : ℕ → SubscriberMove → Move
  closing : Move

unfoldable pub move_at :
    (String → Option Event) → Bool → ℕ → SubscriberMove → List NatsSubscriber → List NatsSubscriber
move_at unmarshal done id m [] = []
move_at unmarshal done id m (s ∷ ss) =
    (if s.id == id then move unmarshal done m s else s) ∷ move_at unmarshal done id m ss

unfoldable pub step : (String → Option Event) → Move → NatsBus → NatsBus
step unmarshal (subscribed o created) b = if b.done then b else record b {
  subscribers =
      if created
      then b.subscribers ++ (new_subscriber b.next_sub_id b.push_buffer_size o ∷ [])
      else b.subscribers;
  next_sub_id = (b.next_sub_id + 1) % 2 ^ 64;
}
step unmarshal (published m) b = record b { subscribers = map (deliver m) b.subscribers }
step unmarshal (moved id m) b = record b {
  subscribers = move_at unmarshal b.done id m b.subscribers;
}
step unmarshal closing b = record b { done = true }

abbrev pub is_over : Phase → Bool
is_over finished = true
is_over panicked = true
is_over at_head = false
is_over in_next = false
is_over (sending e) = false

-- `wg.Wait()` of `Close` returns: no goroutine is left.
unfoldable pub close_returns : List NatsSubscriber → Bool
close_returns [] = true
close_returns (s ∷ ss) = is_over s.phase && close_returns ss

unfoldable pub run : (String → Option Event) → List Move → NatsBus → NatsBus
run unmarshal [] b = b
run unmarshal (m ∷ ms) b = run unmarshal ms (step unmarshal m b)

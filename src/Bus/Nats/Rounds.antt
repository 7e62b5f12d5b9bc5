-- ===== src/Bus/Nats/Rounds.antt =====
-- The loop of Replay in internal/core/nats_bus.go: that it ends, and what its rounds add up to.
use openspace_os_core.Base.{
  ℕ, zero, suc, ◌+◌, ◌<◌, ◌≡◌, refl, ◌∙◌, sym, String, Bool, true, false, Option, none, some, List,
  [], ◌∷◌, ◌++◌, arith, length, take, drop, length-drop, take-append-drop, subst,
}
use openspace_os_core.Event.{Event}
use openspace_os_core.Bus.Local.{ReplayOptions}
use openspace_os_core.Bus.Nats.{
  context_done, Reply, ok, err, Read, more, done, batch_size, then_read, read_one, read_batch,
  Fault, no_fault, no_batch, batch_error, short_batch, taken, is_healthy, end_round, read_rounds,
  as_reply, replay,
}

module _ (unmarshal : String → Option Event) (o : ReplayOptions) where
  then_read_assoc :
      (r : Read) (f g : List Event → Read)
      → then_read (then_read r f) g ≡ then_read r (λ out. then_read (f out) g)
  then_read_assoc (more out) f g = refl
  then_read_assoc (done out) f g = refl

  then_read_agree :
      (r : Read) (f g : List Event → Read)
      → ((out : List Event) → f out ≡ g out)
      → then_read r f ≡ then_read r g
  then_read_agree (more out) f g h = h out
  then_read_agree (done out) f g h = refl

  -- Reading one batch and then another is reading both at once.
  read_batch-append :
      (ms ns : List String) (out : List Event)
      → read_batch unmarshal o out (ms ++ ns)
        ≡ then_read (read_batch unmarshal o out ms) (λ out'. read_batch unmarshal o out' ns)
  unfolding read_batch
  read_batch-append [] ns out = refl
  read_batch-append (m ∷ ms) ns out =
      then_read_agree (read_one unmarshal o out (unmarshal m)) _ _ (read_batch-append ms ns)
      ∙ sym (then_read_assoc (read_one unmarshal o out (unmarshal m)) _ _)

  abbrev pub events_in : Read → List Event
  events_in (more out) = out
  events_in (done out) = out

  batch_size-pos : 0 < batch_size o.limit
  batch_size-pos = ground arith

  take-nil : (n : ℕ) → ◌≡◌ {A = List String} (take n []) []
  take-nil zero = refl
  take-nil (suc n) = refl

  end_round_lem :
      (out : List Event) (r : Read) (next : List Event → Option (List Event × Option String))
      (f : List Event → Read)
      → ((found : List Event) → next found ≡ some (events_in (f found), none))
      → end_round unmarshal o none out r true next ≡ some (events_in (then_read r f), none)
  end_round_lem out (done found) next f h = refl
  end_round_lem out (more found) next f h = h found

  -- Rounds without faults read what one batch of everything would, if there is fuel for each message.
  pub read_rounds_lem :
      (fuel round : ℕ) (ctx : ℕ → Option String) (faults : ℕ → Fault) (ms : List String)
      (out : List Event)
      → ((n : ℕ) → ctx n ≡ none)
      → ((n : ℕ) → faults n ≡ no_fault)
      → length ms < fuel
      → read_rounds unmarshal o fuel ctx faults round ms out
        ≡ some (events_in (read_batch unmarshal o out ms), none)
  unfolding read_rounds read_batch
  read_rounds_lem zero round ctx faults ms out live well h = absurd (omega arith)
  read_rounds_lem (suc fuel) round ctx faults [] out live well h =
      rw (live round, well round, take-nil (batch_size o.limit)) refl
  read_rounds_lem (suc fuel) round ctx faults (m ∷ ms) out live well h =
      let size = batch_size o.limit in
      let all = m ∷ ms in
      let rest = drop size all in
      let joined : read_batch unmarshal o out all
          ≡ then_read (read_batch unmarshal o out (take size all))
              (λ out'. read_batch unmarshal o out' rest) =
        subst
          (λ l.
            read_batch unmarshal o out l
            ≡ then_read (read_batch unmarshal o out (take size all))
                (λ out'. read_batch unmarshal o out' rest))
          (take-append-drop size all) (read_batch-append (take size all) rest out) in
      rw (live round, well round, joined)
        (end_round_lem out (read_batch unmarshal o out (take size all)) _ _ (λ found.
          read_rounds_lem fuel (round + 1) ctx faults rest found live well
            (omega (arith, length-drop size all, batch_size-pos))))

  end_round-total :
      (c : Option String) (out : List Event) (r : Read) (again : Bool)
      (next : List Event → Option (List Event × Option String))
      → ((found : List Event)
          → again ≡ true
          → (a : List Event × Option String) × (next found ≡ some a))
      → (a : List Event × Option String) × (end_round unmarshal o c out r again next ≡ some a)
  end_round-total (some e) out r again next h = ((out, some e), refl)
  end_round-total none out (done found) again next h = ((found, none), refl)
  end_round-total none out (more found) false next h = ((found, none), refl)
  end_round-total none out (more found) true next h = h found refl

  read_rounds-total :
      (fuel round : ℕ) (ctx : ℕ → Option String) (faults : ℕ → Fault) (ms : List String)
      (out : List Event)
      → length ms < fuel
      → (a : List Event × Option String) × (read_rounds unmarshal o fuel ctx faults round ms out
          ≡ some a)
  unfolding read_rounds
  read_rounds-total zero round ctx faults ms out h = absurd (omega arith)
  read_rounds-total (suc fuel) round ctx faults ms out h =
      end_round-total (ctx round) out _ _ _ (λ found again.
        read_rounds-total fuel (round + 1) ctx faults (drop (taken unmarshal o (faults round)) ms)
          found
          (let (left, some_taken) = progress ms (faults round) again in
            omega (arith, length-drop (taken unmarshal o (faults round)) ms, left, some_taken)))
    where
      progress :
          (ms : List String) (f : Fault)
          → is_healthy unmarshal o f ms ≡ true
          → (0 < length ms) × (0 < taken unmarshal o f)
      progress [] no_fault h = absurd (ground arith)
      progress (m ∷ ms) no_fault h = (omega arith, batch_size-pos)
      progress ms no_batch h = absurd (ground arith)
      progress ms batch_error h = absurd (ground arith)
      progress [] (short_batch n) h = absurd (ground arith)
      progress (m ∷ ms) (short_batch n) h = (omega arith, ground (arith, h, batch_size-pos))

  as_reply-total :
      (a : Option (List Event × Option String)) (r : List Event × Option String)
      → a ≡ some r
      → (b : Reply (List Event)) × (as_reply unmarshal o a ≡ some b)
  as_reply-total a (out, none) h = (ok out, rw h refl)
  as_reply-total a (out, some e) h = (err (context_done e), rw h refl)

  -- If finitely many messages reach the stream while it runs, Replay ends with events or an error, however
  -- many of them have come by each fetch, whatever its context says and whichever fetches and batches fail.
  pub replay-terminates :
      (closed : Bool) (at_start setup : Option String) (ctx : ℕ → Option String)
      (faults : ℕ → Fault) (ms : List String)
      → (r : Reply (List Event)) × (replay unmarshal o closed at_start setup ctx faults ms ≡ some r)
  unfolding replay
  replay-terminates closed (some c) setup ctx faults ms = (_, refl)
  replay-terminates closed none (some e) ctx faults ms = (_, refl)
  replay-terminates true none none ctx faults ms = (_, refl)
  replay-terminates false none none ctx faults ms =
      let (a, ended) = read_rounds-total (length ms + 1) 0 ctx faults ms [] (omega arith) in
      as_reply-total _ a ended

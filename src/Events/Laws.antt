-- ===== src/Events/Laws.antt =====
-- Bounds, conservation and isolation on the event bus.
use virtual_helmsman.Prelude.{
  ℕ, ◌+◌, ◌≤◌, ◌<◌, ◌≡◌, refl, Option, none, some, List, [], ◌∷◌, ◌++◌, arith, length,
  length-append, ◌==◌, if◌then◌else◌,
}
use mathlib.Core.Option
use virtual_helmsman.Events.{
  Event, Subscriber, EventBus, new_bus, unsubscribe, discard, is_full, offer, fan_out, publish,
  tail_of, take_head, BusStep, subscribes, unsubscribes, receives, publishes, step, run,
}

-- Every queue is within the bound, and the ids are distinct and below the next one.
abbrev pub AllBelow : ℕ → List Subscriber → Type 0
AllBelow size [] = Unit
AllBelow size (s ∷ ss) = (length s.queue ≤ size) × AllBelow size ss

abbrev pub waiting : List Subscriber → ℕ
waiting [] = 0
waiting (s ∷ ss) = length s.queue + waiting ss

offer-below :
    (size : ℕ) (e : Event) (s : Subscriber)
    → 0 < size
    → length s.queue ≤ size
    → length (offer size e s).0.queue ≤ size
offer-below size e s p h = ground (arith, length-append s.queue (e ∷ []))

fan_out-AllBelow :
    (size : ℕ) (e : Event) (ss : List Subscriber)
    → 0 < size
    → AllBelow size ss
    → AllBelow size (fan_out size e ss).0
unfolding fan_out
fan_out-AllBelow size e [] p h = tt
fan_out-AllBelow size e (s ∷ ss) p (h, hs) =
    (offer-below size e s p h, fan_out-AllBelow size e ss p hs)

discard-AllBelow :
    (size q : ℕ) (ss : List Subscriber) → AllBelow size ss → AllBelow size (discard q ss)
unfolding discard
discard-AllBelow size q [] h = tt
discard-AllBelow size q (s ∷ ss) (h, hs) = ground (arith, discard-AllBelow size q ss hs)

length-tail_of : (es : List Event) → length (tail_of es) ≤ length es
length-tail_of [] = omega arith
length-tail_of (e ∷ es) = omega arith

take_head-AllBelow :
    (size q : ℕ) (ss : List Subscriber) → AllBelow size ss → AllBelow size (take_head q ss)
unfolding take_head
take_head-AllBelow size q [] h = tt
take_head-AllBelow size q (s ∷ ss) (h, hs) =
    ground (arith, take_head-AllBelow size q ss hs, length-tail_of s.queue)

pub record IsBounded (bus : EventBus) : Type 0 where
  pub positive : 0 < bus.queue_size
  pub below : AllBelow bus.queue_size bus.subscribers

pub step-IsBounded : (st : BusStep) (bus : EventBus) → IsBounded bus → IsBounded (step st bus)
unfolding step
step-IsBounded subscribes bus h = record { positive = h.positive; below = (omega arith, h.below) }
step-IsBounded (unsubscribes q) bus h = record {
  positive = h.positive;
  below = discard-AllBelow bus.queue_size q bus.subscribers h.below;
}
step-IsBounded (receives q) bus h = record {
  positive = h.positive;
  below = take_head-AllBelow bus.queue_size q bus.subscribers h.below;
}
step-IsBounded (publishes e) bus h = record {
  positive = h.positive;
  below = fan_out-AllBelow bus.queue_size e bus.subscribers h.positive h.below;
}

run-IsBounded : (steps : List BusStep) (bus : EventBus) → IsBounded bus → IsBounded (run steps bus)
unfolding run
run-IsBounded [] bus h = h
run-IsBounded (s ∷ ss) bus h = run-IsBounded ss (step s bus) (step-IsBounded s bus h)

-- Whatever the subscribers do and whatever is published, no queue of a bus with a positive size
-- ever holds more than that many events.
pub run-new_bus-IsBounded :
    (size : ℕ) (steps : List BusStep) → 0 < size → IsBounded (run steps (new_bus size))
unfolding new_bus
run-new_bus-IsBounded size steps p =
    run-IsBounded steps (new_bus size) (record { positive = p; below = tt })

fan_out-conserves :
    (size : ℕ) (e : Event) (ss : List Subscriber)
    → waiting (fan_out size e ss).0 + (fan_out size e ss).1 ≡ waiting ss + length ss
unfolding fan_out
fan_out-conserves size e [] = refl
fan_out-conserves size e (s ∷ ss) =
    ground (arith, fan_out-conserves size e ss, length-append s.queue (e ∷ []))

-- A published event is either put on a subscriber's queue or counted as dropped, once for each
-- subscriber.
publish-conserves :
    (e : Event) (bus : EventBus)
    → waiting (publish e bus).subscribers + (publish e bus).dropped
      ≡ waiting bus.subscribers + bus.dropped + length bus.subscribers
unfolding publish
publish-conserves e bus = omega (arith, fan_out-conserves bus.queue_size e bus.subscribers)

-- the queue of a subscriber
abbrev pub queue_of : ℕ → List Subscriber → Option (List Event)
queue_of q [] = none
queue_of q (s ∷ ss) = if s.id == q then some s.queue else queue_of q ss

abbrev pub enqueue : ℕ → Event → List Event → List Event
enqueue size e queue = if is_full size queue then queue else queue ++ e ∷ []

queue_of-fan_out :
    (size q : ℕ) (e : Event) (ss : List Subscriber)
    → queue_of q (fan_out size e ss).0 ≡ Option.map (enqueue size e) (queue_of q ss)
unfolding fan_out
queue_of-fan_out size q e [] = refl
queue_of-fan_out size q e (s ∷ ss) = ground (arith, queue_of-fan_out size q e ss)

-- What a published event does to one queue depends on that queue alone: it is appended unless
-- the queue is full, whatever the other subscribers do.
queue_of-publish :
    (q : ℕ) (e : Event) (bus : EventBus)
    → queue_of q (publish e bus).subscribers
      ≡ Option.map (enqueue bus.queue_size e) (queue_of q bus.subscribers)
unfolding publish
queue_of-publish q e bus = queue_of-fan_out bus.queue_size q e bus.subscribers

queue_of-discard :
    (q j : ℕ) (ss : List Subscriber)
    → queue_of j (discard q ss) ≡ (if j == q then none else queue_of j ss)
unfolding discard
queue_of-discard q j [] = ground arith
queue_of-discard q j (s ∷ ss) = ground (arith, queue_of-discard q j ss)

-- Unsubscribing removes the queue and no other, and doing it again changes nothing more.
queue_of-unsubscribe :
    (q j : ℕ) (bus : EventBus)
    → queue_of j (unsubscribe q bus).subscribers
      ≡ (if j == q then none else queue_of j bus.subscribers)
unfolding unsubscribe
queue_of-unsubscribe q j bus = queue_of-discard q j bus.subscribers

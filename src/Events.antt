-- ===== src/Events.antt =====
-- voice_agent/api/events.py: the events and the bus that hands them to the subscribers. The time
-- stamp of an event is left out. A queue object is named by the number of its `subscribe` call;
-- `receive` is what a subscriber's `queue.get()` takes.
pub mod Laws
pub mod Transcripts
mod Tests
use virtual_helmsman.Prelude.{
  ℕ, zero, suc, ◌+◌, String, Bool, true, false, ◌&&◌, Option, none, some, List, [], ◌∷◌, ◌++◌, ltb,
  leb, length, ◌==◌, if◌then◌else◌,
}
use virtual_helmsman.Prelude.Int.{ℤ}
use virtual_helmsman.Simulator.{ShipState, ConnectionState}

-- A value of an action's details.
pub data Detail : Type 0 where
  text_detail : String → Detail
  number_detail : ℤ → Detail

pub data Event : Type 0 where
  transcript : String → Event
  assistant_reply : String → Event
  action_dispatched : String → List (String × Detail) → Event
  action_refused : (error_type reason suggestion : String) → Event
  ship_state : ShipState → Event
  turn_metrics : ℕ → List (String × ℤ) → Event
  connection_state : ConnectionState → Event

pub record Subscriber : Type 0 where
  pub id : ℕ
  pub queue : List Event

pub record EventBus : Type 0 where
  pub subscribers : List Subscriber
  pub queue_size : ℕ
  pub dropped : ℕ
  pub next_id : ℕ

-- __init__
unfoldable pub new_bus : ℕ → EventBus
new_bus queue_size = record { subscribers = []; queue_size = queue_size; dropped = 0; next_id = 0 }

unfoldable pub subscriber_count : EventBus → ℕ
subscriber_count bus = length bus.subscribers

unfoldable pub subscribe : EventBus → EventBus × ℕ
subscribe bus = (
  record bus {
    subscribers = record { id = bus.next_id; queue = [] } ∷ bus.subscribers;
    next_id = suc bus.next_id;
  },
  bus.next_id,
)

unfoldable pub discard : ℕ → List Subscriber → List Subscriber
discard q [] = []
discard q (s ∷ ss) = let rest = discard q ss in if s.id == q then rest else s ∷ rest

-- set.discard
unfoldable pub unsubscribe : ℕ → EventBus → EventBus
unfolding discard
unsubscribe q bus = record bus { subscribers = discard q bus.subscribers }

-- Queue.full: a queue of size 0 has no bound
abbrev pub is_full : ℕ → List Event → Bool
is_full size queue = ltb 0 size && leb size (length queue)

-- put_nowait, with 1 for a dropped event
abbrev pub offer : ℕ → Event → Subscriber → Subscriber × ℕ
offer size e s =
    if is_full size s.queue then (s, 1) else (record s { queue = s.queue ++ e ∷ [] }, 0)

-- the loop over the subscribers
unfoldable pub fan_out : ℕ → Event → List Subscriber → List Subscriber × ℕ
fan_out size e [] = ([], 0)
fan_out size e (s ∷ ss) =
    let (s', lost) = offer size e s in
    let (ss', more) = fan_out size e ss in (s' ∷ ss', lost + more)

unfoldable pub publish : Event → EventBus → EventBus
unfolding fan_out
publish e bus =
    let (ss, lost) = fan_out bus.queue_size e bus.subscribers in
    record bus { subscribers = ss; dropped = bus.dropped + lost }

unfoldable pub publish_all : List Event → EventBus → EventBus
unfolding publish
publish_all [] bus = bus
publish_all (e ∷ es) bus = publish_all es (publish e bus)

abbrev pub tail_of : List Event → List Event
tail_of [] = []
tail_of (e ∷ es) = es

unfoldable pub take_head : ℕ → List Subscriber → List Subscriber
take_head q [] = []
take_head q (s ∷ ss) =
    let rest = take_head q ss in
    if s.id == q then record s { queue = tail_of s.queue } ∷ rest else s ∷ rest

unfoldable pub receive : ℕ → EventBus → EventBus
unfolding take_head
receive q bus = record bus { subscribers = take_head q bus.subscribers }

-- What the program and its subscribers do to a bus.
pub data BusStep : Type 0 where
  subscribes : BusStep
  unsubscribes receives : ℕ → BusStep
  publishes : Event → BusStep

unfoldable pub step : BusStep → EventBus → EventBus
unfolding subscribe unsubscribe receive publish
step subscribes bus = (subscribe bus).0
step (unsubscribes q) bus = unsubscribe q bus
step (receives q) bus = receive q bus
step (publishes e) bus = publish e bus

unfoldable pub run : List BusStep → EventBus → EventBus
unfolding step
run [] bus = bus
run (s ∷ ss) bus = run ss (step s bus)

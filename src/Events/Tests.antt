-- ===== src/Events/Tests.antt =====
-- The theorems on voice_agent/api/events.py at a bus of one place per queue.
use virtual_helmsman.Prelude.{List, [], ◌∷◌, arith}
use virtual_helmsman.Events.{
  Event, transcript, EventBus, new_bus, BusStep, subscribes, unsubscribes, publishes, receives, run,
}
use virtual_helmsman.Events.Laws.{IsBounded, run-new_bus-IsBounded}

abbrev hello : Event
hello = transcript "hello"

abbrev bus : EventBus
bus = record {
  subscribers = record { id = 1; queue = hello ∷ [] } ∷ record { id = 0; queue = [] } ∷ [];
  queue_size = 1;
  dropped = 4;
  next_id = 2;
}

abbrev watch_party : List BusStep
watch_party =
    subscribes
    ∷ publishes hello
    ∷ publishes hello
    ∷ subscribes
    ∷ receives 0
    ∷ publishes hello
    ∷ unsubscribes 1
    ∷ []

run-new_bus-IsBounded_example : IsBounded (run watch_party (new_bus 1))
run-new_bus-IsBounded_example = run-new_bus-IsBounded 1 watch_party (omega arith)

-- ===== src/Actions/Processor/Published.antt =====
-- What the events of a turn say of the order.
use mathlib.Core.Option
use virtual_helmsman.Prelude.{
  ℕ, String, ◌≡◌, refl, Bool, true, false, ◌&&◌, ◌||◌, List, [], ◌∷◌, arith,
}
use virtual_helmsman.Simulator.{SimulatorClient, answered}
use virtual_helmsman.Events.{Event, action_dispatched, action_refused}
use virtual_helmsman.Actions.Schema.{
  HelmsmanAction, HelmsmanResponse, rudder, throttle, navigation, autopilot, anchor, status_query,
  error, answer,
}
use virtual_helmsman.Actions.Dispatch.{DispatchResult, done, Printer, dispatch_action}
use virtual_helmsman.Actions.Dispatch.Orders.{order_given, perform, dispatch_action_honest}
use virtual_helmsman.Actions.Processor.{turn_events, action_events, carried_events, state_events}

abbrev pub is_dispatched : Event → Bool
is_dispatched (action_dispatched _ _) = true
is_dispatched _ = false

abbrev pub is_refused : Event → Bool
is_refused (action_refused _ _ _) = true
is_refused _ = false

abbrev pub some_event : (Event → Bool) → List Event → Bool
some_event test [] = false
some_event test (e ∷ es) = test e || some_event test es

-- the actions other than a refusal and an answer
abbrev pub is_command : HelmsmanAction → Bool
is_command (error _ _ _) = false
is_command answer = false
is_command _ = true

carried_dispatched :
    (a : HelmsmanAction) (result : DispatchResult) (spoken : String)
    → some_event is_dispatched (carried_events a result spoken) ≡ result.ok
unfolding carried_events state_events
carried_dispatched a result spoken = ground arith

-- A turn is published as a dispatched action exactly when the action is a command and the
-- dispatcher reported success.
pub turn_events_dispatched :
    (reply : HelmsmanResponse) (result : DispatchResult) (spoken : String)
    → some_event is_dispatched (turn_events reply result spoken)
      ≡ is_command reply.action && result.ok
unfolding turn_events
turn_events_dispatched reply result spoken = of_action reply.action
  where
    of_action :
        (a : HelmsmanAction)
        → some_event is_dispatched (action_events a result spoken) ≡ is_command a && result.ok
    of_action (error error_type reason suggestion) = refl
    of_action answer = refl
    of_action (rudder direction degrees) =
        carried_dispatched (rudder direction degrees) result spoken
    of_action (throttle order knots) = carried_dispatched (throttle order knots) result spoken
    of_action (navigation course) = carried_dispatched (navigation course) result spoken
    of_action (autopilot state) = carried_dispatched (autopilot state) result spoken
    of_action (anchor operation chain) = carried_dispatched (anchor operation chain) result spoken
    of_action (status_query query) = carried_dispatched (status_query query) result spoken

-- An action published as dispatched has had its one request answered by the simulator, if it
-- makes one: no order that failed is recorded as executed.
pub dispatched_was_answered :
    (unit : ℕ) (p : Printer) (c : SimulatorClient) (reply : HelmsmanResponse) (s : c.State)
    (result : DispatchResult) (spoken : String)
    → (dispatch_action unit p c reply s).0 ≡ done result
    → some_event is_dispatched (turn_events reply result spoken) ≡ true
    → (perform c (order_given unit p c reply.action) s).0 ≡ Option.map answered result.ship_state
dispatched_was_answered unit p c reply s result spoken h e =
    dispatch_action_honest unit p c reply s result h
      (ground (arith, turn_events_dispatched reply result spoken))

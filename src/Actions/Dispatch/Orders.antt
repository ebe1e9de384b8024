-- ===== src/Actions/Dispatch/Orders.antt =====
-- What reaches the simulator for each action, and what the dispatcher reports of it.
use mathlib.Core.Option
use virtual_helmsman.Prelude.{ℕ, String, ◌≡◌, refl, ◌≢◌, true, Option, none, some, arith}
use virtual_helmsman.Prelude.Int.{ℤ}
use virtual_helmsman.Simulator.{
  EngineOrder, ShipState, Reply, answered, failed, SimulatorClient, order_of_value,
}
use virtual_helmsman.Actions.Schema.{
  HelmsmanAction, HelmsmanResponse, rudder, throttle, status_query, is_engine_order_literal,
}
use virtual_helmsman.Actions.Schema.Laws.{WithinLimits}
use virtual_helmsman.Actions.Dispatch.{
  DispatchResult, done, Printer, after, telegraph, format_status, helm_angle, throttle_order,
  dispatch_on, dispatch_action,
}

-- A description of the dispatcher's traffic, apart from its code: the one request that an action
-- makes of the simulator, if any.
pub data Order : Type 0 where
  no_order : Order
  helm : (angle : ℤ) → Order
  engine : EngineOrder → Order
  look : Order

abbrev engine_or_none : Option EngineOrder → Order
engine_or_none none = no_order
engine_or_none (some o) = engine o

abbrev pub order_given : ℕ → Printer → SimulatorClient → HelmsmanAction → Order
order_given unit p c (rudder direction degrees) = helm (helm_angle direction degrees)
order_given unit p c (throttle order knots) = engine_or_none (throttle_order unit p c order knots)
order_given unit p c (status_query query) = look
order_given unit p c _ = no_order

abbrev replied : {S : Type 0} → Reply × S → Option Reply × S
replied (reply, s) = (some reply, s)

abbrev pub perform : (c : SimulatorClient) → Order → c.State → Option Reply × c.State
perform c no_order s = (none, s)
perform c (helm angle) s = replied (c.set_rudder angle s)
perform c (engine order) s = replied (c.set_engine_telegraph order s)
perform c look s = replied (c.get_state s)

-- The two lists of telegraph positions agree.
order_of_value-ne-none : (v : String) → is_engine_order_literal v ≡ true → order_of_value v ≢ none
unfolding is_engine_order_literal order_of_value
order_of_value-ne-none v h = ground arith

after_done :
    (reply : Reply) (spoken : ShipState → String)
    → (res : DispatchResult) × (after reply spoken ≡ done res)
after_done failed spoken = (_, refl)
after_done (answered state) spoken = (_, refl)

module _ (unit : ℕ) (p : Printer) (c : SimulatorClient) where
  telegraph-perform :
      (o : Option EngineOrder) (text : String) (s : c.State)
      → (telegraph unit p c o text s).1 ≡ (perform c (engine_or_none o) s).1
  telegraph-perform none text s = refl
  telegraph-perform (some o) text s = refl

  dispatch_on-perform :
      (a : HelmsmanAction) (text : String) (s : c.State)
      → (dispatch_on unit p c a text s).1 ≡ (perform c (order_given unit p c a) s).1
  unfolding dispatch_on
  dispatch_on-perform (rudder direction degrees) text s = refl
  dispatch_on-perform (throttle order knots) text s =
      telegraph-perform (throttle_order unit p c order knots) text s
  dispatch_on-perform (status_query query) text s = refl
  dispatch_on-perform _ text s = refl

  -- Dispatching an action changes the simulator as its one request does, and not at all for an
  -- action without one: a refusal, an answer, a course order, the autopilot and the anchor.
  dispatch_action-perform :
      (r : HelmsmanResponse) (s : c.State)
      → (dispatch_action unit p c r s).1 ≡ (perform c (order_given unit p c r.action) s).1
  unfolding dispatch_action
  dispatch_action-perform r s = dispatch_on-perform r.action r.response s

  throttle_order-ne-none :
      (order : Option String) (knots : Option ℤ)
      → WithinLimits unit (throttle order knots)
      → throttle_order unit p c order knots ≢ none
  unfolding throttle_order
  throttle_order-ne-none none none h = ground arith
  throttle_order-ne-none none (some x) h = ground arith
  throttle_order-ne-none (some v) knots h = order_of_value-ne-none v h.0

  telegraph_done :
      (o : Option EngineOrder) (text : String) (s : c.State)
      → o ≢ none
      → (res : DispatchResult) × ((telegraph unit p c o text s).0 ≡ done res)
  telegraph_done none text s h = absurd (h refl)
  telegraph_done (some o) text s h = after_done (c.set_engine_telegraph o s).0 (λ _. text)

  dispatch_on_total :
      (a : HelmsmanAction) (text : String) (s : c.State)
      → WithinLimits unit a
      → (res : DispatchResult) × ((dispatch_on unit p c a text s).0 ≡ done res)
  unfolding dispatch_on
  dispatch_on_total (rudder direction degrees) text s h =
      after_done (c.set_rudder (helm_angle direction degrees) s).0 (λ _. text)
  dispatch_on_total (throttle order knots) text s h =
      telegraph_done (throttle_order unit p c order knots) text s
        (throttle_order-ne-none order knots h)
  dispatch_on_total (status_query query) text s h =
      after_done (c.get_state s).0 (format_status p query text)
  dispatch_on_total _ text s h = (_, refl)

  -- An action that the schema accepts is dispatched without an uncaught exception.
  pub dispatch_action_total :
      (r : HelmsmanResponse) (s : c.State)
      → WithinLimits unit r.action
      → (res : DispatchResult) × ((dispatch_action unit p c r s).0 ≡ done res)
  unfolding dispatch_action
  dispatch_action_total r s = dispatch_on_total r.action r.response s

  after_honest :
      (reply : Reply) (spoken : ShipState → String) (res : DispatchResult)
      → after reply spoken ≡ done res
      → res.ok ≡ true
      → some reply ≡ Option.map answered res.ship_state
  after_honest failed spoken res h ok = ground arith
  after_honest (answered state) spoken res h ok = ground arith

  telegraph_honest :
      (o : Option EngineOrder) (text : String) (s : c.State) (res : DispatchResult)
      → (telegraph unit p c o text s).0 ≡ done res
      → res.ok ≡ true
      → (perform c (engine_or_none o) s).0 ≡ Option.map answered res.ship_state
  telegraph_honest none text s res h ok = cc
  telegraph_honest (some o) text s res h ok =
      after_honest (c.set_engine_telegraph o s).0 (λ _. text) res h ok

  dispatch_on_honest :
      (a : HelmsmanAction) (text : String) (s : c.State) (res : DispatchResult)
      → (dispatch_on unit p c a text s).0 ≡ done res
      → res.ok ≡ true
      → (perform c (order_given unit p c a) s).0 ≡ Option.map answered res.ship_state
  unfolding dispatch_on
  dispatch_on_honest (rudder direction degrees) text s res h ok =
      after_honest (c.set_rudder (helm_angle direction degrees) s).0 (λ _. text) res h ok
  dispatch_on_honest (throttle order knots) text s res h ok =
      telegraph_honest (throttle_order unit p c order knots) text s res h ok
  dispatch_on_honest (status_query query) text s res h ok =
      after_honest (c.get_state s).0 (format_status p query text) res h ok
  dispatch_on_honest _ text s res h ok = ground arith

  -- A dispatch that reports success has made its request and got an answer: the answer's state is
  -- the one reported. A refused course order and a failed request report no success.
  pub dispatch_action_honest :
      (r : HelmsmanResponse) (s : c.State) (res : DispatchResult)
      → (dispatch_action unit p c r s).0 ≡ done res
      → res.ok ≡ true
      → (perform c (order_given unit p c r.action) s).0 ≡ Option.map answered res.ship_state
  unfolding dispatch_action
  dispatch_action_honest r s = dispatch_on_honest r.action r.response s

-- ===== src/Actions/Dispatch.antt =====
-- voice_agent/actions/dispatch.py: an action carried out against a simulator client. Python's
-- `str(round(x))` and `str(round(x, 1))` of a float are parameters; log lines are left out.
pub mod Telegraph
pub mod Orders
use Prim.Native.String
use virtual_helmsman.Prelude.{
  ℕ, ◌*◌, String, Bool, true, false, Option, none, some, if◌then◌else◌, strip,
}
use virtual_helmsman.Prelude.Int.{ℤ, pos, neg, leb_ℤ, ltb_ℤ}
use virtual_helmsman.Simulator.{
  EngineOrder, full_astern, half_astern, slow_astern, dead_slow_astern, stop, dead_slow_ahead,
  slow_ahead, half_ahead, full_ahead, ShipState, Reply, answered, failed, SimulatorClient,
  order_of_value,
}
use virtual_helmsman.Actions.Schema.{
  HelmsmanAction, HelmsmanResponse, Direction, port, starboard, Query, heading, speed, position,
  rudder, throttle, navigation, autopilot, anchor, status_query, error, answer,
}

abbrev pub bridge_lost : String
bridge_lost = "Lost contact with the bridge, sir. Unable to comply."

abbrev pub course_order_refusal : String
course_order_refusal =
    "Unable to steer a course, sir. I can answer the helm on rudder orders and the telegraph. Request a helm order, such as port ten."

pub record DispatchResult : Type 0 where
  pub spoken : String
  pub ok : Bool
  pub ship_state : Option ShipState

-- `raised` stands for an exception that the function does not catch.
pub data Outcome : Type 0 where
  done : DispatchResult → Outcome
  raised : Outcome

pub record Printer : Type 0 where
  pub show_whole : ℤ → String
  pub show_tenth : ℤ → String

unfoldable pub knots_to_telegraph : ℕ → ℤ → EngineOrder
knots_to_telegraph unit knots =
    if leb_ℤ (pos (13 * unit)) knots
    then full_ahead
    else if leb_ℤ (pos (8 * unit)) knots
    then half_ahead
    else if leb_ℤ (pos (4 * unit)) knots
    then slow_ahead
    else if leb_ℤ (pos (1 * unit)) knots
    then dead_slow_ahead
    else if ltb_ℤ (neg (pos (1 * unit))) knots
    then stop
    else if ltb_ℤ (neg (pos (4 * unit))) knots
    then dead_slow_astern
    else if ltb_ℤ (neg (pos (8 * unit))) knots
    then slow_astern
    else if ltb_ℤ (neg (pos (13 * unit))) knots
    then half_astern
    else full_astern

infixl 65 ◌+++◌
abbrev ◌+++◌ : String → String → String
a +++ b = String.◌++◌ a b

unfoldable pub format_status : Printer → Query → String → ShipState → String
unfolding strip
format_status p heading base state =
    strip (strip base +++ " Heading " +++ p.show_whole state.heading_deg +++ " degrees.")
format_status p speed base state =
    strip (strip base +++ " Speed " +++ p.show_tenth state.speed_kn +++ " knots.")
format_status p position base state =
    strip (strip base +++ " Position is not available from the helm.")

abbrev pub say : String → Outcome
say text = done (record { spoken = text; ok = true; ship_state = none })

-- the `except SimulatorError` of the dispatcher
abbrev pub after : Reply → (ShipState → String) → Outcome
after failed spoken = done (record { spoken = bridge_lost; ok = false; ship_state = none })
after (answered state) spoken =
    done (record { spoken = spoken state; ok = true; ship_state = some state })

abbrev pub helm_angle : Direction → ℤ → ℤ
helm_angle starboard degrees = degrees
helm_angle port degrees = neg degrees

module _ (unit : ℕ) (p : Printer) (c : SimulatorClient) where
  abbrev pub telegraph : Option EngineOrder → String → c.State → Outcome × c.State
  telegraph none text s = (raised, s)
  telegraph (some order) text s =
      let (reply, s') = c.set_engine_telegraph order s in (after reply (λ _. text), s')

  -- the telegraph order of a throttle action; `none` is the ValueError of EngineOrder(order) or
  -- the TypeError of float(None)
  unfoldable pub throttle_order : Option String → Option ℤ → Option EngineOrder
  unfolding knots_to_telegraph order_of_value
  throttle_order (some order) knots = order_of_value order
  throttle_order none (some knots) = some (knots_to_telegraph unit knots)
  throttle_order none none = none

  unfoldable pub dispatch_on : HelmsmanAction → String → c.State → Outcome × c.State
  unfolding throttle_order format_status
  dispatch_on (error error_type reason suggestion) text s = (say text, s)
  dispatch_on answer text s = (say text, s)
  dispatch_on (navigation course) text s =
      (done (record { spoken = course_order_refusal; ok = false; ship_state = none }), s)
  dispatch_on (rudder direction degrees) text s =
      let (reply, s') = c.set_rudder (helm_angle direction degrees) s in
      (after reply (λ _. text), s')
  dispatch_on (throttle order knots) text s = telegraph (throttle_order order knots) text s
  dispatch_on (status_query query) text s =
      let (reply, s') = c.get_state s in (after reply (format_status p query text), s')
  dispatch_on (autopilot state) text s = (say text, s)
  dispatch_on (anchor operation chain_length) text s = (say text, s)

  unfoldable pub dispatch_action : HelmsmanResponse → c.State → Outcome × c.State
  unfolding dispatch_on
  dispatch_action parsed s = dispatch_on parsed.action parsed.response s

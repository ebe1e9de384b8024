-- ===== src/Simulator.antt =====
-- voice_agent/backends/simulator/base.py: orders, link states, the ship's state and what a client
-- of the simulator can be asked. A raised `SimulatorError` is the reply `failed`.
pub mod Mock
pub mod Levers
pub mod Real
mod Tests
use virtual_helmsman.Prelude.{ℕ, String, Option, none, some, if◌then◌else◌, text_eq}
use virtual_helmsman.Prelude.Int.{ℤ}

pub data EngineOrder : Type 0 where
  full_astern half_astern slow_astern dead_slow_astern stop : EngineOrder
  dead_slow_ahead slow_ahead half_ahead full_ahead : EngineOrder

-- order.value
unfoldable pub order_value : EngineOrder → String
order_value full_astern = "full_astern"
order_value half_astern = "half_astern"
order_value slow_astern = "slow_astern"
order_value dead_slow_astern = "dead_slow_astern"
order_value stop = "stop"
order_value dead_slow_ahead = "dead_slow_ahead"
order_value slow_ahead = "slow_ahead"
order_value half_ahead = "half_ahead"
order_value full_ahead = "full_ahead"

-- EngineOrder(value), `none` where Python raises ValueError
unfoldable pub order_of_value : String → Option EngineOrder
order_of_value v =
    if text_eq v "full_astern"
    then some full_astern
    else if text_eq v "half_astern"
    then some half_astern
    else if text_eq v "slow_astern"
    then some slow_astern
    else if text_eq v "dead_slow_astern"
    then some dead_slow_astern
    else if text_eq v "stop"
    then some stop
    else if text_eq v "dead_slow_ahead"
    then some dead_slow_ahead
    else if text_eq v "slow_ahead"
    then some slow_ahead
    else if text_eq v "half_ahead"
    then some half_ahead
    else if text_eq v "full_ahead"
    then some full_ahead
    else none

pub data ConnectionState : Type 0 where
  disconnected connecting connected stale : ConnectionState

-- Angles, speeds and positions are multiples of 1 / unit.
pub record ShipState : Type 0 where
  pub heading_deg : ℤ
  pub speed_kn : ℤ
  pub engine_order : EngineOrder
  pub rudder_angle_deg : ℤ
  pub timestamp : ℕ
  pub sim_time_s : Option ℤ
  pub lat_deg : Option ℤ
  pub lon_deg : Option ℤ

pub data Reply : Type 0 where
  answered : ShipState → Reply
  failed : Reply

-- The part of the `SimulatorClient` protocol that the dispatcher calls. The state holds the
-- client and all that its calls read of the outside.
pub record SimulatorClient : Type 1 where
  pub State : Type 0
  pub set_rudder : ℤ → State → Reply × State
  pub set_engine_telegraph : EngineOrder → State → Reply × State
  pub get_state : State → Reply × State

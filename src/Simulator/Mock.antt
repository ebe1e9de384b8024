-- ===== src/Simulator/Mock.antt =====
-- voice_agent/backends/simulator/mock.py: the in-memory simulator. The wall clock that a snapshot
-- reads is `now` of the state; the log lines are left out.
use virtual_helmsman.Prelude.{ℕ, ◌-◌, ◌*◌, ◌%◌, String, Option, none, some, List, [], ◌∷◌, ◌++◌}
use virtual_helmsman.Prelude.Int.{ℤ, pos, negsuc, neg}
use virtual_helmsman.Simulator.{
  EngineOrder, full_astern, half_astern, slow_astern, dead_slow_astern, stop, dead_slow_ahead,
  slow_ahead, half_ahead, full_ahead, ConnectionState, connected, ShipState, Reply, answered,
  SimulatorClient, order_of_value,
}

-- `_SPEED_BY_ORDER`, in multiples of 1 / unit knot
unfoldable pub speed_by_order : ℕ → EngineOrder → ℤ
speed_by_order unit full_astern = neg (pos (20 * unit))
speed_by_order unit half_astern = neg (pos (12 * unit))
speed_by_order unit slow_astern = neg (pos (6 * unit))
speed_by_order unit dead_slow_astern = neg (pos (3 * unit))
speed_by_order unit stop = pos 0
speed_by_order unit dead_slow_ahead = pos (3 * unit)
speed_by_order unit slow_ahead = pos (6 * unit)
speed_by_order unit half_ahead = pos (12 * unit)
speed_by_order unit full_ahead = pos (20 * unit)

pub data MockCommand : Type 0 where
  set_rudder_to : (angle_deg : ℤ) → MockCommand
  set_telegraph_to : EngineOrder → MockCommand

pub record CommandRecord : Type 0 where
  pub ts : ℕ
  pub command : MockCommand
  pub result : ShipState

pub record MockSimulatorClient : Type 0 where
  pub heading_deg : ℤ
  pub engine_order : EngineOrder
  pub rudder_angle_deg : ℤ
  pub command_history : List CommandRecord
  pub now : ℕ

-- initial_heading % 360: Python's remainder takes the sign of the divisor
abbrev pub wrap_heading : ℕ → ℤ → ℤ
wrap_heading turn (pos n) = pos (n % turn)
wrap_heading turn (negsuc n) = pos (turn - 1 - n % turn)

-- __init__
unfoldable pub new_mock : ℕ → ℤ → EngineOrder → ℕ → MockSimulatorClient
new_mock unit initial_heading initial_engine_order now = record {
  heading_deg = wrap_heading (360 * unit) initial_heading;
  engine_order = initial_engine_order;
  rudder_angle_deg = pos 0;
  command_history = [];
  now = now;
}

-- `build_simulator` with the order as the text of the configuration; `none` is the ValueError
unfoldable pub build_mock : ℕ → ℤ → String → ℕ → Option MockSimulatorClient
unfolding new_mock order_of_value
build_mock unit initial_heading order now = elim (order_of_value order) [
  | none ↦ none
  | some o ↦ some (new_mock unit initial_heading o now)
]

unfoldable pub connection_state : MockSimulatorClient → ConnectionState
connection_state m = connected

unfoldable pub snapshot : ℕ → MockSimulatorClient → ShipState
unfolding speed_by_order
snapshot unit m = record {
  heading_deg = m.heading_deg;
  speed_kn = speed_by_order unit m.engine_order;
  engine_order = m.engine_order;
  rudder_angle_deg = m.rudder_angle_deg;
  timestamp = m.now;
  sim_time_s = none;
  lat_deg = none;
  lon_deg = none;
}

unfoldable pub record_command : MockCommand → ShipState → MockSimulatorClient → MockSimulatorClient
record_command command result m = record m {
  command_history =
      m.command_history
      ++ record { ts = result.timestamp; command = command; result = result } ∷ [];
}

unfoldable pub set_rudder : ℕ → ℤ → MockSimulatorClient → Reply × MockSimulatorClient
unfolding snapshot record_command
set_rudder unit angle_deg m =
    let m' = record m { rudder_angle_deg = angle_deg } in
    let state = snapshot unit m' in
    (answered state, record_command (set_rudder_to angle_deg) state m')

unfoldable pub set_engine_telegraph :
    ℕ → EngineOrder → MockSimulatorClient → Reply × MockSimulatorClient
unfolding snapshot record_command
set_engine_telegraph unit order m =
    let m' = record m { engine_order = order } in
    let state = snapshot unit m' in
    (answered state, record_command (set_telegraph_to order) state m')

unfoldable pub get_state : ℕ → MockSimulatorClient → Reply × MockSimulatorClient
unfolding snapshot
get_state unit m = (answered (snapshot unit m), m)

-- The mock as a `SimulatorClient`.
abbrev pub mock_client : ℕ → SimulatorClient
mock_client unit = record {
  State = MockSimulatorClient;
  set_rudder = set_rudder unit;
  set_engine_telegraph = set_engine_telegraph unit;
  get_state = get_state unit;
}

-- ===== src/Actions/Tests.antt =====
-- The theorems on voice_agent/actions/ at a port ten order, on the mock simulator.
use mathlib.Core.Option
use virtual_helmsman.Prelude.{◌*◌, ◌≡◌, refl, true, some, none, [], text_eq, if◌then◌else◌, Option}
use virtual_helmsman.Prelude.Int.{ℤ, pos, negsuc}
use virtual_helmsman.Json.{Json, int, str, obj, end, field}
use virtual_helmsman.Simulator.{stop, ShipState, answered}
use virtual_helmsman.Simulator.Mock.{MockSimulatorClient, mock_client, set_rudder}
use virtual_helmsman.Actions.Schema.{
  loaded_json, decode_error, Decoder, HelmsmanResponse, rudder, port, schema_code,
}
use virtual_helmsman.Actions.Schema.Laws.{WithinLimits, parse_response-WithinLimits}
use virtual_helmsman.Actions.Dispatch.{DispatchResult, Printer, dispatch_action}
use virtual_helmsman.Actions.Dispatch.Orders.{order_given, perform}
use virtual_helmsman.Actions.Processor.Published.{turn_events_dispatched, dispatched_was_answered}

abbrev port_ten_json : Json
port_ten_json = obj (
    field "action"
      (obj (
        field "type" (str "rudder")
          (field "direction" (str "port") (field "degrees" (int (pos 10)) end))))
      (field "response" (str "Port ten, sir.") end))

abbrev float_of_int : Json → Option ℤ
float_of_int (int (pos n)) = some (pos (10 * n))
float_of_int _ = none

abbrev int_of_int : Json → Option ℤ
int_of_int (int n) = some n
int_of_int _ = none

-- floats in tenths; one text is JSON
abbrev pub decoder : Decoder
decoder = record {
  float_of = float_of_int;
  int_of = int_of_int;
  loads = λ s. if text_eq s "PORT TEN" then loaded_json port_ten_json else decode_error;
}

abbrev pub printer : Printer
printer = record { show_whole = λ x. "12"; show_tenth = λ x. "1.2" }

abbrev pub ship : MockSimulatorClient
ship = record {
  heading_deg = pos 900;
  engine_order = stop;
  rudder_angle_deg = pos 0;
  command_history = [];
  now = 7;
}

abbrev port_ten : HelmsmanResponse
port_ten = record { action = rudder port (pos 100); response = "Port ten, sir." }

abbrev pub at_port_ten : ShipState
at_port_ten = record {
  heading_deg = pos 900;
  speed_kn = pos 0;
  engine_order = stop;
  rudder_angle_deg = negsuc 99;
  timestamp = 7;
  sim_time_s = none;
  lat_deg = none;
  lon_deg = none;
}

abbrev executed : DispatchResult
executed = record { spoken = "Port ten, sir."; ok = true; ship_state = some at_port_ten }

parse_response-WithinLimits_example : WithinLimits 10 (rudder port (pos 100))
unfolding schema_code
parse_response-WithinLimits_example =
    parse_response-WithinLimits 10 decoder " PORT TEN" port_ten refl

dispatched_was_answered_example :
    (perform (mock_client 10) (order_given 10 printer (mock_client 10) port_ten.action) ship).0
    ≡ Option.map answered executed.ship_state
unfolding dispatch_action set_rudder
dispatched_was_answered_example =
    dispatched_was_answered 10 printer (mock_client 10) port_ten ship executed "Port ten, sir." refl
      (turn_events_dispatched port_ten executed "Port ten, sir.")

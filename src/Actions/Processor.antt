-- ===== src/Actions/Processor.antt =====
-- voice_agent/actions/processor.py: the frame processor that turns the model's JSON reply into an
-- action and a spoken line. Frames other than the three of a model's response are numbered.
pub mod Turns
pub mod Published
pub mod Asides
pub mod Helm
mod Tests
use Prim.Native.String
use virtual_helmsman.Prelude.{
  ℕ, String, Bool, true, false, Option, none, some, List, [], ◌∷◌, ◌++◌, strip, ◌or◌, if◌then◌else◌,
}
use virtual_helmsman.Prelude.Int.{ℤ}
use virtual_helmsman.Simulator.{ShipState, SimulatorClient}
use virtual_helmsman.Events.{
  Event, assistant_reply, action_dispatched, action_refused, ship_state, EventBus, publish_all,
  Detail, text_detail, number_detail,
}
use virtual_helmsman.Actions.Schema.{
  HelmsmanAction, HelmsmanResponse, Parsed, parsed, rejected, uncaught, parse_response, Decoder,
  Direction, port, starboard, AutopilotState, engaged, disengaged, Operation, drop, raise,
  let_out_chain, Query, heading, speed, position, rudder, throttle, navigation, autopilot, anchor,
  status_query, error, answer,
}
use virtual_helmsman.Actions.Dispatch.{
  DispatchResult, Outcome, done, raised, Printer, dispatch_action,
}

abbrev pub unparseable : String
unparseable = "Sorry sir, I did not catch that order. Please say again."

pub data Frame : Type 0 where
  response_start response_end : Frame
  llm_text : String → Frame
  other_frame : ℕ → Frame

pub data FrameDirection : Type 0 where
  downstream upstream : FrameDirection

direction_value : Direction → String
direction_value port = "port"
direction_value starboard = "starboard"

autopilot_value : AutopilotState → String
autopilot_value engaged = "engaged"
autopilot_value disengaged = "disengaged"

operation_value : Operation → String
operation_value drop = "drop"
operation_value raise = "raise"
operation_value let_out_chain = "let_out_chain"

query_value : Query → String
query_value heading = "heading"
query_value speed = "speed"
query_value position = "position"

-- action.type
pub action_type : HelmsmanAction → String
action_type (rudder _ _) = "rudder"
action_type (throttle _ _) = "throttle"
action_type (navigation _) = "navigation"
action_type (autopilot _) = "autopilot"
action_type (anchor _ _) = "anchor"
action_type (status_query _) = "status_query"
action_type (error _ _ _) = "error"
action_type answer = "answer"

order_details : Option String → List (String × Detail)
order_details none = []
order_details (some order) = ("order", text_detail order) ∷ []

speed_details : Option ℤ → List (String × Detail)
speed_details none = []
speed_details (some knots) = ("speed", number_detail knots) ∷ ("unit", text_detail "knots") ∷ []

chain_details : Option ℤ → List (String × Detail)
chain_details none = []
chain_details (some chain) = ("chain_length", number_detail chain) ∷ []

pub details : HelmsmanAction → List (String × Detail)
unfolding direction_value autopilot_value operation_value query_value order_details speed_details
    chain_details
details (rudder direction degrees) =
    ("direction", text_detail (direction_value direction)) ∷ ("degrees", number_detail degrees) ∷ []
details (throttle order knots) = order_details order ++ speed_details knots
details (navigation course) = ("course", number_detail course) ∷ []
details (autopilot state) = ("state", text_detail (autopilot_value state)) ∷ []
details (anchor operation chain) =
    ("operation", text_detail (operation_value operation)) ∷ chain_details chain
details (status_query query) = ("query", text_detail (query_value query)) ∷ []
details _ = []

state_events : Option ShipState → List Event
state_events none = []
state_events (some state) = ship_state state ∷ []

-- what is published behind the reply for an action that is neither a refusal nor an answer
carried_events : HelmsmanAction → DispatchResult → String → List Event
unfolding details action_type state_events
carried_events action result spoken =
    if result.ok
    then action_dispatched (action_type action) (details action) ∷ state_events result.ship_state
    else action_refused "not_executed" spoken "" ∷ []

-- what is published behind the reply
action_events : HelmsmanAction → DispatchResult → String → List Event
unfolding carried_events
action_events (error error_type reason suggestion) result spoken =
    action_refused error_type reason suggestion ∷ []
action_events answer result spoken = []
action_events action result spoken = carried_events action result spoken

-- `_publish_turn_events`, as the list of what it publishes
pub turn_events : HelmsmanResponse → DispatchResult → String → List Event
unfolding action_events
turn_events reply result spoken = assistant_reply spoken ∷ action_events reply.action result spoken

abbrev pub publish_to : Option EventBus → List Event → Option EventBus
publish_to none es = none
publish_to (some bus) es = some (publish_all es bus)

-- "".join(parts)
pub joined : List String → String
joined [] = ""
joined (s ∷ ss) = String.◌++◌ s (joined ss)

-- The processor with what it shares: the simulator and the bus.
pub record Processor (c : SimulatorClient) : Type 0 where
  pub parts : List String
  pub capturing : Bool
  pub ship : c.State
  pub bus : Option EventBus

module _ (unit : ℕ) (d : Decoder) (p : Printer) (c : SimulatorClient) where
  -- the end of `_resolve` for a reply that was parsed; `none` is an uncaught exception
  pub finish : HelmsmanResponse → Outcome × c.State → Processor c → Option (String × Processor c)
  unfolding turn_events
  finish reply (raised, ship') s = none
  finish reply (done result, ship') s =
      let spoken = strip result.spoken or unparseable in
      some (
        spoken,
        record s { ship = ship'; bus = publish_to s.bus (turn_events reply result spoken) },
      )

  resolve_parsed : Parsed → Processor c → Option (String × Processor c)
  resolve_parsed (rejected e) s =
      some (unparseable, record s { bus = publish_to s.bus (assistant_reply unparseable ∷ []) })
  resolve_parsed uncaught s = none
  resolve_parsed (parsed reply) s = finish reply (dispatch_action unit p c reply s.ship) s

  -- `_resolve`
  pub resolve : String → Processor c → Option (String × Processor c)
  unfolding resolve_parsed
  resolve raw s = resolve_parsed (parse_response unit d raw) s

  abbrev spoken_frames : Option (String × Processor c) → Option (List Frame × Processor c)
  spoken_frames none = none
  spoken_frames (some (spoken, s)) = some (response_start ∷ llm_text spoken ∷ response_end ∷ [], s)

  end_of_response : Processor c → Option (List Frame × Processor c)
  unfolding joined
  end_of_response s =
      spoken_frames (resolve (strip (joined s.parts)) (record s { parts = []; capturing = false }))

  downstream_frame : Frame → Processor c → Option (List Frame × Processor c)
  downstream_frame response_start s = some ([], record s { parts = []; capturing = true })
  downstream_frame (llm_text text) s =
      if s.capturing
      then some ([], record s { parts = s.parts ++ text ∷ [] })
      else some (llm_text text ∷ [], s)
  downstream_frame response_end s =
      if s.capturing then end_of_response s else some (response_end ∷ [], s)
  downstream_frame (other_frame n) s = some (other_frame n ∷ [], s)

  -- `process_frame`: the frames that are pushed on, in the direction of the frame
  pub process_frame : Frame → FrameDirection → Processor c → Option (List Frame × Processor c)
  unfolding downstream_frame
  process_frame frame upstream s = some (frame ∷ [], s)
  process_frame frame downstream s = downstream_frame frame s

  abbrev more_frames :
      List Frame → Option (List Frame × Processor c) → Option (List Frame × Processor c)
  more_frames out none = none
  more_frames out (some (more, s)) = some (out ++ more, s)

  -- frames that come down one after the other
  pub process_frames : List Frame → Processor c → Option (List Frame × Processor c)
  process_frames [] s = some ([], s)
  process_frames (f ∷ fs) s = elim (process_frame f downstream s) [
    | none ↦ none
    | some (out, s') ↦ more_frames out (process_frames fs s')
  ]

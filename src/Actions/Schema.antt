-- ===== src/Actions/Schema.antt =====
-- voice_agent/actions/schema.py: the action vocabulary and its validation. `json.loads` and
-- pydantic's conversion of a JSON value to a float or an int are parameters; the constraints that
-- the models declare are checked here. Floats are multiples of 1 / unit.
pub mod Laws
pub mod Braced
use virtual_helmsman.Prelude.{
  ℕ, ◌*◌, String, Bool, true, false, ◌&&◌, ◌||◌, Option, none, some, List, [], ◌∷◌, if◌then◌else◌,
  text_eq, truthy, ◌≡◌, refl,
}
use virtual_helmsman.Prelude.Int.{ℤ, pos, neg, leb_ℤ}
use virtual_helmsman.Json.{Json, null, str, obj, Fields, get}
use virtual_helmsman.Actions.Fence.{strip_code_fence}
use virtual_helmsman.Prelude.Options.{◌>>=◌, ◌>>◌, guard}

pub data Direction : Type 0 where
  port starboard : Direction

pub data AutopilotState : Type 0 where
  engaged disengaged : AutopilotState

pub data Operation : Type 0 where
  drop raise let_out_chain : Operation

pub data Query : Type 0 where
  heading speed position : Query

-- One constructor for each model of the union; a telegraph order is its literal.
pub data HelmsmanAction : Type 0 where
  rudder : Direction → ℤ → HelmsmanAction
  throttle : Option String → Option ℤ → HelmsmanAction
  navigation : (course : ℤ) → HelmsmanAction
  autopilot : AutopilotState → HelmsmanAction
  anchor : Operation → (chain_length : Option ℤ) → HelmsmanAction
  status_query : Query → HelmsmanAction
  error : (error_type reason suggestion : String) → HelmsmanAction
  answer : HelmsmanAction

pub record HelmsmanResponse : Type 0 where
  pub action : HelmsmanAction
  pub response : String

pub data ActionParseError : Type 0 where
  empty_response not_json schema_mismatch : ActionParseError

-- What `json.loads` does: it returns a value, raises a JSONDecodeError, or raises another exception,
-- such as the ValueError of an integer with too many digits or the RecursionError of deep nesting.
pub data Loaded : Type 0 where
  loaded_json : Json → Loaded
  decode_error other_error : Loaded

-- `uncaught` is an exception of `json.loads` that `parse_response` lets through.
pub data Parsed : Type 0 where
  parsed : HelmsmanResponse → Parsed
  rejected : ActionParseError → Parsed
  uncaught : Parsed

-- the `EngineOrderLiteral` of the schema
unfoldable pub is_engine_order_literal : String → Bool
is_engine_order_literal s =
    text_eq s "full_astern"
    || text_eq s "half_astern"
    || text_eq s "slow_astern"
    || text_eq s "dead_slow_astern"
    || text_eq s "stop"
    || text_eq s "dead_slow_ahead"
    || text_eq s "slow_ahead"
    || text_eq s "half_ahead"
    || text_eq s "full_ahead"

as_str : Json → Option String
as_str (str s) = some s
as_str _ = none

abbrev between : ℤ → ℤ → ℤ → Bool
between lo hi x = leb_ℤ lo x && leb_ℤ x hi

-- What pydantic and `json` do of which the program relies: a value converted to a float, to an
-- int, and a text decoded.
pub record Decoder : Type 0 where
  pub float_of : Json → Option ℤ
  pub int_of : Json → Option ℤ
  pub loads : String → Loaded

direction_of : String → Option Direction
direction_of s =
    if text_eq s "port" then some port else if text_eq s "starboard" then some starboard else none

autopilot_state_of : String → Option AutopilotState
autopilot_state_of s =
    if text_eq s "engaged"
    then some engaged
    else if text_eq s "disengaged"
    then some disengaged
    else none

operation_of : String → Option Operation
operation_of s =
    if text_eq s "drop"
    then some drop
    else if text_eq s "raise"
    then some raise
    else if text_eq s "let_out_chain"
    then some let_out_chain
    else none

query_of : String → Option Query
query_of s =
    if text_eq s "heading"
    then some heading
    else if text_eq s "speed"
    then some speed
    else if text_eq s "position"
    then some position
    else none

-- a required field that is a text
text_field : String → Fields → Option String
text_field k fs = do v ← get k fs; as_str v

literal_of : String → Option String
literal_of s = if is_engine_order_literal s then some s else none

-- order: EngineOrderLiteral | None = None
order_field : Option Json → Option (Option String)
order_field none = some none
order_field (some null) = some none
order_field (some v) = do s ← as_str v; l ← literal_of s; some (some l)

-- unit: Literal["knots"] = "knots"
unit_field : Option Json → Option (Unit {0})
unit_field none = some tt
unit_field (some v) = do s ← as_str v; guard (text_eq s "knots")

-- suggestion: str = ""
suggestion_field : Option Json → Option String
suggestion_field none = some ""
suggestion_field (some v) = as_str v

module _ (unit : ℕ) (d : Decoder) where
  float_in : ℤ → ℤ → Json → Option ℤ
  float_in lo hi v = do x ← d.float_of v; guard (between lo hi x); some x

  -- speed: Annotated[float, Field(ge=-30, le=30)] | None = None
  speed_field : Option Json → Option (Option ℤ)
  speed_field none = some none
  speed_field (some null) = some none
  speed_field (some v) = do x ← float_in (neg (pos (30 * unit))) (pos (30 * unit)) v; some (some x)

  -- chain_length: float | None = None
  chain_field : Option Json → Option (Option ℤ)
  chain_field none = some none
  chain_field (some null) = some none
  chain_field (some v) = do x ← d.float_of v; some (some x)

  -- the model validator `_require_order_or_speed`
  require_order_or_speed : Option String → Option ℤ → Option HelmsmanAction
  require_order_or_speed none none = none
  require_order_or_speed order knots = some (throttle order knots)

  validate_rudder : Fields → Option HelmsmanAction
  validate_rudder fs = do
    name ← text_field "direction" fs
    direction ← direction_of name
    v ← get "degrees" fs
    degrees ← float_in (pos 0) (pos (45 * unit)) v
    some (rudder direction degrees)

  validate_throttle : Fields → Option HelmsmanAction
  validate_throttle fs = do
    order ← order_field (get "order" fs)
    knots ← speed_field (get "speed" fs)
    unit_field (get "unit" fs)
    require_order_or_speed order knots

  validate_navigation : Fields → Option HelmsmanAction
  validate_navigation fs = do
    v ← get "course" fs
    course ← d.int_of v
    guard (between (pos 0) (pos 359) course)
    some (navigation course)

  validate_anchor : Fields → Option HelmsmanAction
  validate_anchor fs = do
    name ← text_field "operation" fs
    operation ← operation_of name
    chain ← chain_field (get "chain_length" fs)
    some (anchor operation chain)

  validate_error : Fields → Option HelmsmanAction
  validate_error fs = do
    error_type ← text_field "error_type" fs
    reason ← text_field "reason" fs
    suggestion ← suggestion_field (get "suggestion" fs)
    some (error error_type reason suggestion)

  -- the union discriminated by `type`
  validate_tagged : String → Fields → Option HelmsmanAction
  validate_tagged tag fs =
      if text_eq tag "rudder"
      then validate_rudder fs
      else if text_eq tag "throttle"
      then validate_throttle fs
      else if text_eq tag "navigation"
      then validate_navigation fs
      else if text_eq tag "autopilot"
      then (do s ← text_field "state" fs; a ← autopilot_state_of s; some (autopilot a))
      else if text_eq tag "anchor"
      then validate_anchor fs
      else if text_eq tag "status_query"
      then (do s ← text_field "query" fs; q ← query_of s; some (status_query q))
      else if text_eq tag "error"
      then validate_error fs
      else if text_eq tag "answer"
      then some answer
      else none

  validate_action : Json → Option HelmsmanAction
  validate_action (obj fs) = do tag ← text_field "type" fs; validate_tagged tag fs
  validate_action _ = none

  -- HelmsmanResponse.model_validate
  pub validate_response : Json → Option HelmsmanResponse
  validate_response (obj fs) = do
    v ← get "action" fs
    action ← validate_action v
    response ← text_field "response" fs
    some (record { action = action; response = response })
  validate_response _ = none

  abbrev pub validated : Option HelmsmanResponse → Parsed
  validated none = rejected schema_mismatch
  validated (some r) = parsed r

  abbrev pub parse_decoded : Loaded → Parsed
  parse_decoded decode_error = rejected not_json
  parse_decoded other_error = uncaught
  parse_decoded (loaded_json v) = validated (validate_response v)

  pub parse_response : String → Parsed
  parse_response text =
      let cleaned = strip_code_fence text in
      if truthy cleaned then parse_decoded (d.loads cleaned) else rejected empty_response

-- Named on the `unfolding` line of what runs the whole validation.
unfoldable pub schema_code : Unit {0}
unfolding parse_response validate_response validate_action validate_tagged validate_rudder
    validate_throttle validate_navigation validate_anchor validate_error require_order_or_speed
    chain_field speed_field float_in suggestion_field unit_field order_field literal_of text_field
    query_of operation_of autopilot_state_of direction_of as_str is_engine_order_literal get
    strip_code_fence
schema_code = tt

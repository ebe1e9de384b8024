-- ===== src/Actions/Schema/Laws.antt =====
-- What the validation of voice_agent/actions/schema.py guarantees of an accepted action.
use virtual_helmsman.Prelude.{
  ℕ, ◌*◌, Char, String, List, from_chars, strip_chars, ◌≡◌, ◌≢◌, ◌⊎◌, true, Option, none, some,
  arith,
}
use virtual_helmsman.Prelude.Int.{ℤ, pos, neg, ◌≤ℤ◌}
use virtual_helmsman.Json.{Json, null, obj, Fields, get}
use virtual_helmsman.Prelude.Options.{bind-eq-some}
use virtual_helmsman.Actions.Fence.{strip_code_fence, fence, strip_prefix, after_newline}
use virtual_helmsman.Actions.Fence.Laws.{wrapped, strip_code_fence-wrapped, strip_code_fence-plain}
use virtual_helmsman.Actions.Schema.{
  HelmsmanAction, HelmsmanResponse, Decoder, other_error, parsed, uncaught, rudder, throttle,
  navigation, float_in, speed_field, order_field, literal_of, require_order_or_speed,
  validate_rudder, validate_throttle, validate_navigation, validate_anchor, validate_error,
  validate_tagged, validate_action, validate_response, parse_response, is_engine_order_literal,
  unit_field, text_field,
}

abbrev pub InRange : ℤ → ℤ → Option ℤ → Type 0
InRange lo hi none = Unit
InRange lo hi (some x) = (lo ≤ℤ x) × (x ≤ℤ hi)

abbrev pub IsLiteral : Option String → Type 0
IsLiteral none = Unit
IsLiteral (some s) = is_engine_order_literal s ≡ true

-- The safety limits of an action.
abbrev pub WithinLimits : ℕ → HelmsmanAction → Type 0
WithinLimits unit (rudder _ degrees) = (pos 0 ≤ℤ degrees) × (degrees ≤ℤ pos (45 * unit))
WithinLimits unit (throttle order knots) =
    IsLiteral order
    × InRange (neg (pos (30 * unit))) (pos (30 * unit)) knots
    × ((order ≢ none) ⊎ (knots ≢ none))
WithinLimits unit (navigation course) = (pos 0 ≤ℤ course) × (course ≤ℤ pos 359)
WithinLimits unit _ = Unit

module _ (unit : ℕ) (d : Decoder) where
  rudder-WithinLimits :
      (fs : Fields) (a : HelmsmanAction) → validate_rudder unit d fs ≡ some a → WithinLimits unit a
  unfolding validate_rudder float_in
  rudder-WithinLimits fs a h = ground arith

  navigation-WithinLimits :
      (fs : Fields) (a : HelmsmanAction)
      → validate_navigation unit d fs ≡ some a
      → WithinLimits unit a
  unfolding validate_navigation
  navigation-WithinLimits fs a h = ground arith

  order_field-IsLiteral :
      (v : Option Json) (order : Option String) → order_field v ≡ some order → IsLiteral order
  unfolding order_field literal_of
  order_field-IsLiteral none order h = ground arith
  order_field-IsLiteral (some null) order h = ground arith
  order_field-IsLiteral (some v) order h = ground arith

  speed_field-InRange :
      (v : Option Json) (knots : Option ℤ)
      → speed_field unit d v ≡ some knots
      → InRange (neg (pos (30 * unit))) (pos (30 * unit)) knots
  unfolding speed_field float_in
  speed_field-InRange none knots h = ground arith
  speed_field-InRange (some null) knots h = ground arith
  speed_field-InRange (some v) knots h = ground arith

  require-throttle :
      (order : Option String) (knots : Option ℤ) (a : HelmsmanAction)
      → require_order_or_speed unit d order knots ≡ some a
      → (a ≡ throttle order knots) × ((order ≢ none) ⊎ (knots ≢ none))
  unfolding require_order_or_speed
  require-throttle none none a h = ground arith
  require-throttle none (some x) a h = ground arith
  require-throttle (some s) knots a h = ground arith

  throttle-WithinLimits :
      (fs : Fields) (a : HelmsmanAction)
      → validate_throttle unit d fs ≡ some a
      → WithinLimits unit a
  unfolding validate_throttle
  throttle-WithinLimits fs a h =
      let (order, order_read, h₁) = bind-eq-some _ _ h in
      let (knots, speed_read, h₂) = bind-eq-some _ _ h₁ in
      let (_, _, h₃) = bind-eq-some (unit_field (get "unit" fs)) _ h₂ in
      let (e, either) = require-throttle order knots a h₃ in
      rw e (order_field-IsLiteral _ _ order_read, speed_field-InRange _ _ speed_read, either)

  anchor-WithinLimits :
      (fs : Fields) (a : HelmsmanAction) → validate_anchor unit d fs ≡ some a → WithinLimits unit a
  unfolding validate_anchor
  anchor-WithinLimits fs a h = ground arith

  error-WithinLimits :
      (fs : Fields) (a : HelmsmanAction) → validate_error unit d fs ≡ some a → WithinLimits unit a
  unfolding validate_error
  error-WithinLimits fs a h = ground arith

  tagged-WithinLimits :
      (tag : String) (fs : Fields) (a : HelmsmanAction)
      → validate_tagged unit d tag fs ≡ some a
      → WithinLimits unit a
  unfolding validate_tagged
  tagged-WithinLimits tag fs a h = ground (
    arith,
    rudder-WithinLimits fs a,
    throttle-WithinLimits fs a,
    navigation-WithinLimits fs a,
    anchor-WithinLimits fs a,
    error-WithinLimits fs a,
  )

  action-WithinLimits :
      (v : Json) (a : HelmsmanAction) → validate_action unit d v ≡ some a → WithinLimits unit a
  unfolding validate_action
  action-WithinLimits (obj fs) a h =
      let (tag, _, h₁) = bind-eq-some (text_field "type" fs) (λ t. validate_tagged unit d t fs) h in
      tagged-WithinLimits tag fs a h₁
  action-WithinLimits _ a h = cc

  response-WithinLimits :
      (v : Json) (r : HelmsmanResponse)
      → validate_response unit d v ≡ some r
      → WithinLimits unit r.action
  unfolding validate_response
  response-WithinLimits (obj fs) r h = grind (arith, action-WithinLimits)
  response-WithinLimits _ r h = cc

  -- Whatever text the model returns, an action that is accepted is within the safety limits: the
  -- rudder angle at most 45 degrees, the speed between -30 and 30 knots, the course from 0 to
  -- 359, and a throttle action names a telegraph position or a speed.
  pub parse_response-WithinLimits :
      (text : String) (r : HelmsmanResponse)
      → parse_response unit d text ≡ parsed r
      → WithinLimits unit r.action
  unfolding parse_response
  parse_response-WithinLimits text r h = grind (arith, response-WithinLimits)

  -- An exception that is not caught is one that `json.loads` raises.
  pub parse_response-cases :
      (raw : String)
      → ((d.loads (strip_code_fence raw) ≡ other_error) × (parse_response unit d raw ≡ uncaught))
        ⊎ (parse_response unit d raw ≢ uncaught)
  unfolding parse_response
  parse_response-cases raw = ground arith

  -- A reply in a markdown fence with a tag line parses as the reply alone, for every reply that
  -- does not itself begin with a fence.
  parse_response-wrapped :
      (tag body : List Char)
      → after_newline tag ≡ none
      → strip_prefix fence (strip_chars body) ≡ none
      → parse_response unit d (from_chars (wrapped tag body))
        ≡ parse_response unit d (from_chars body)
  unfolding parse_response
  parse_response-wrapped tag body plain bare =
      rw (strip_code_fence-wrapped tag body plain, strip_code_fence-plain body bare)

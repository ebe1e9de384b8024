-- ===== src/Actions/Processor/Asides.antt =====
-- The turns that no order comes of: a refusal or an answer from the language model.
use virtual_helmsman.Prelude.{
  ℕ, Char, String, chars, from_chars, chars-from_chars, ◌≡◌, refl, false, ◌∙◌, ap, some, List, [],
  ◌∷◌, strip, strip_chars, ◌or◌,
}
use text.Mathlib.TextLemmas.{append-nil}
use virtual_helmsman.Events.{Event, assistant_reply, action_refused}
use virtual_helmsman.Json.{Json}
use virtual_helmsman.Simulator.{SimulatorClient}
use virtual_helmsman.Actions.Schema.{
  Decoder, loaded_json, HelmsmanAction, HelmsmanResponse, rudder, throttle, navigation, autopilot,
  anchor, status_query, error, answer, validate_response,
}
use virtual_helmsman.Actions.Schema.Braced.{braced, strip_chars-braced, parse_response-braced}
use virtual_helmsman.Actions.Dispatch.{Printer, dispatch_action}
use virtual_helmsman.Actions.Processor.{
  response_start, response_end, llm_text, Processor, unparseable, joined, finish, resolve_parsed,
  resolve, process_frames, publish_to,
}
use virtual_helmsman.Actions.Processor.Turns.{process_frames-resolved}

joined-braced :
    (body : List Char) → strip (joined (from_chars (braced body) ∷ [])) ≡ from_chars (braced body)
unfolding joined strip
joined-braced body =
    ap (λ s. from_chars (strip_chars (chars s))) (append-nil (from_chars (braced body)))
    ∙ ap (λ cs. from_chars (strip_chars cs)) (chars-from_chars (braced body))
    ∙ ap from_chars (strip_chars-braced body)

-- An action that the dispatcher only speaks.
abbrev pub IsAside : HelmsmanAction → Type 0
IsAside (error error_type reason suggestion) = Unit
IsAside answer = Unit
IsAside _ = ⊥

-- What is published of it behind the reply.
abbrev pub refusals : HelmsmanAction → List Event
refusals (error error_type reason suggestion) = action_refused error_type reason suggestion ∷ []
refusals _ = []

-- The line that is spoken.
abbrev pub spoken_line : HelmsmanResponse → String
spoken_line reply = strip reply.response or unparseable

module _ (unit : ℕ) (d : Decoder) (p : Printer) (c : SimulatorClient) where
  -- The processor after the turn: the ship is as it was.
  abbrev pub after_aside : HelmsmanResponse → Processor c → Processor c
  after_aside reply s = record s {
    bus = publish_to s.bus (assistant_reply (spoken_line reply) ∷ refusals reply.action);
  }

  finish_aside :
      (action : HelmsmanAction) (response : String) (s : Processor c)
      → IsAside action
      → finish unit d p c
          (record { action = action; response = response })
          (dispatch_action unit p c (record { action = action; response = response }) s.ship)
          s
        ≡ some (
          spoken_line (record { action = action; response = response }),
          after_aside (record { action = action; response = response }) s,
        )
  unfolding finish dispatch_action
  finish_aside (error error_type reason suggestion) response s h = refl
  finish_aside answer response s h = refl
  finish_aside (status_query _) response s h = elim h [ ]
  finish_aside (anchor _ _) response s h = elim h [ ]
  finish_aside (autopilot _) response s h = elim h [ ]
  finish_aside (navigation _) response s h = elim h [ ]
  finish_aside (throttle _ _) response s h = elim h [ ]
  finish_aside (rudder _ _) response s h = elim h [ ]

  -- A reply between braces that reads as a refusal or an answer.
  abbrev pub Reads : (body : List Char) → HelmsmanResponse → Type 0
  Reads body reply =
      (v : Json) × (d.loads (from_chars (braced body)) ≡ loaded_json v)
      × (validate_response unit d v ≡ some reply)

  resolve_aside :
      (body : List Char) (reply : HelmsmanResponse) (s : Processor c)
      → IsAside reply.action
      → Reads body reply
      → resolve unit d p c (strip (joined (from_chars (braced body) ∷ []))) s
        ≡ some (spoken_line reply, after_aside reply s)
  unfolding resolve resolve_parsed
  resolve_aside body reply s h (v, e, g) =
      rw (joined-braced body, parse_response-braced unit d body v reply e g)
        (finish_aside reply.action reply.response s h)

  pub process_frames-aside :
      (body : List Char) (reply : HelmsmanResponse) (s : Processor c)
      → IsAside reply.action
      → Reads body reply
      → process_frames unit d p c
          (response_start ∷ llm_text (from_chars (braced body)) ∷ response_end ∷ [])
          s
        ≡ some (
          response_start ∷ llm_text (spoken_line reply) ∷ response_end ∷ [],
          after_aside reply (record s { parts = []; capturing = false }),
        )
  process_frames-aside body reply s h r =
      process_frames-resolved unit d p c (from_chars (braced body) ∷ []) s _ _
        (resolve_aside body reply (record s { parts = []; capturing = false }) h r)

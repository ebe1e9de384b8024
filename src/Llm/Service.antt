-- ===== src/Llm/Service.antt =====
-- service.py: the frame processor that runs the graph on the latest user message and pushes the
-- envelope as the one text of a response. `json.dumps` is a parameter.
pub mod Audited
pub mod Replies
use virtual_helmsman.Prelude.{
  ℕ, String, Bool, true, false, Option, none, some, List, [], ◌∷◌, text_eq, truthy, if◌then◌else◌,
}
use virtual_helmsman.Json.{Json, str, Fields, get}
use virtual_helmsman.Actions.Dispatch.{bridge_lost}
use virtual_helmsman.Actions.Processor.{Frame, response_start, response_end, llm_text}
use virtual_helmsman.Llm.Envelopes.{Envelope, to_json, error_envelope, error_audit_row, ◌&◌}
use virtual_helmsman.Llm.Graph.{
  Attempt, returned, thrown, LlmConfig, LlmServices, World, audit, runner,
}

-- m.get("role") == "user"
abbrev pub is_user : Option Json → Bool
is_user (some (str role)) = text_eq role "user"
is_user _ = false

abbrev pub text_content : Option Json → Option String
text_content (some (str content)) = some content
text_content _ = none

abbrev pub user_text : Fields → Option String
user_text m = if is_user (get "role" m) then text_content (get "content" m) else none

abbrev pub later_or : Option String → Option String → Option String
later_or (some later) d = some later
later_or none d = d

-- the last of the user's messages whose content is a text
unfoldable pub latest_user_text : List Fields → Option String
unfolding get
latest_user_text [] = none
latest_user_text (m ∷ ms) = later_or (latest_user_text ms) (user_text m)

-- What the pipeline sends: the context with its messages, or any other frame.
pub data ServiceFrame : Type 0 where
  llm_context : List Fields → ServiceFrame
  other_frame : Frame → ServiceFrame

abbrev pub no_user_message : Envelope
no_user_message =
    error_envelope "No user message found in the LLM context." "Standing by for your command, sir."

-- the text of the exception, as the envelope and the audit log have it
abbrev pub graph_failed : String → String
graph_failed reason = "helmsman graph failed: " & reason

module _ (svc : LlmServices) (config : LlmConfig) where
  abbrev pub mapped : Attempt Envelope × World → Envelope × World
  mapped (returned envelope, w) = (envelope, w)
  mapped (thrown reason, w) = (
    error_envelope (graph_failed reason) bridge_lost,
    audit svc config (error_audit_row (graph_failed reason)) w,
  )

  -- `_run`
  unfoldable pub run_turn : String → World → Envelope × World
  unfolding runner error_envelope error_audit_row audit
  run_turn chat_input w = mapped (runner svc config chat_input w)

  abbrev pub reply_to : Option String → World → Envelope × World
  reply_to none w = (no_user_message, w)
  reply_to (some text) w = if truthy text then run_turn text w else (no_user_message, w)

  module _ (dumps : Json → String) where
    abbrev pub response : Envelope × World → List Frame × World
    response (envelope, w) =
        (response_start ∷ llm_text (dumps (to_json envelope)) ∷ response_end ∷ [], w)

    -- `process_frame`: the frames that are pushed on
    unfoldable pub process_frame : ServiceFrame → World → List Frame × World
    unfolding latest_user_text run_turn error_envelope
    process_frame (llm_context messages) w = response (reply_to (latest_user_text messages) w)
    process_frame (other_frame f) w = (f ∷ [], w)

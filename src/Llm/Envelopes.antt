-- ===== src/Llm/Envelopes.antt =====
-- The envelopes of helpers.py: dictionaries of the form of a `HelmsmanResponse`, which the service
-- writes as JSON, and the rows of the audit log that a turn leaves.
use Prim.Native.String
use virtual_helmsman.Prelude.{
  ℕ, zero, suc, String, chars, from_chars, take, Option, none, some, if◌then◌else◌, ◌or◌,
}
use virtual_helmsman.Json.{
  Json, null, str, arr, obj, Items, nil, cons, Fields, end, field, get, is_truthy,
}
use virtual_helmsman.Actions.Dispatch.{bridge_lost}
use virtual_helmsman.Llm.Fence.{strip_code_fence}

pub record Envelope : Type 0 where
  pub action : Fields
  pub response : Json

-- the dictionary that is written
abbrev pub to_json : Envelope → Json
to_json e = obj (field "action" (obj e.action) (field "response" e.response end))

unfoldable pub error_envelope : (reason spoken : String) → Envelope
error_envelope reason spoken = record {
  action = field "type" (str "error") (
      field "error_type" (str "bridge_error") (
        field "reason" (str reason) (
          field "suggestion"
            (str
              "Check that the LM Studio and Qdrant services are running and reachable at the configured URLs.")
            end)));
  response = str spoken;
}

unfoldable pub answer_envelope : String → Envelope
answer_envelope output = record { action = field "type" (str "answer") end; response = str output }

unfoldable pub parse_failure_envelope : (cleaned : String) → Envelope
parse_failure_envelope cleaned = record {
  action = field "type" (str "error") (
      field "error_type" (str "parse_failure")
        (field "reason" (str "Model output was not valid JSON") (field "suggestion" (str "") end)));
  response = str (cleaned or bridge_lost);
}

-- a or b, on the value of a key
abbrev pub value_or : Option Json → Json → Json
value_or none d = d
value_or (some v) d = if is_truthy v then v else d

abbrev pub with_action : Option Json → Fields → String → Envelope
with_action (some (obj action)) fs cleaned = record {
  action = action;
  response = value_or (get "response" fs) (str cleaned);
}
with_action _ fs cleaned = parse_failure_envelope cleaned

abbrev pub envelope_of : Option Json → String → Envelope
envelope_of (some (obj fs)) cleaned = with_action (get "action" fs) fs cleaned
envelope_of _ cleaned = parse_failure_envelope cleaned

-- `json.loads` is the argument; `none` where it raises
unfoldable pub command_envelope : (String → Option Json) → String → Envelope
unfolding strip_code_fence parse_failure_envelope get
command_envelope loads raw =
    let cleaned = strip_code_fence raw in envelope_of (loads cleaned) cleaned

-- text[:n]
abbrev pub prefix : ℕ → String → String
prefix n s = from_chars (take n (chars s))

-- The document, the action and the result of a row.
pub record RuntimeRow : Type 0 where
  pub document_naam : String
  pub actie : String
  pub resultaat : String

abbrev pub runtime_command : String
runtime_command = "command_runtime"

abbrev pub runtime_question : String
runtime_question = "question_runtime"

abbrev pub runtime_llm_error : String
runtime_llm_error = "llm_error_runtime"

abbrev pub take_items : ℕ → Items → Items
take_items zero vs = nil
take_items (suc n) nil = nil
take_items (suc n) (cons v vs) = cons v (take_items n vs)

infixl 60 ◌&◌
abbrev pub ◌&◌ : String → String → String
s & t = String.◌++◌ s t

module _ (to_str : Json → String) where
  -- an f-string's text of a value
  abbrev pub shown : Json → String
  shown (str s) = s
  shown v = to_str v

  abbrev pub shown_key : Option Json → String
  shown_key none = to_str null
  shown_key (some v) = shown v

  -- (response or "")[:120]; only a text and a list can be cut, anything else is a TypeError
  abbrev pub cut_response : Json → Option String
  cut_response (str s) = some (prefix 120 s)
  cut_response (arr vs) =
      if is_truthy (arr vs) then some (to_str (arr (take_items 120 vs))) else some ""
  cut_response v = if is_truthy v then none else some ""

  abbrev pub command_row : String → Option String → Option RuntimeRow
  command_row type none = none
  command_row type (some output) = some (record {
    document_naam = "n.v.t. (command)";
    actie = runtime_command;
    resultaat = "action_type=" & type & " | output=" & output;
  })

  unfoldable pub command_audit_row : Envelope → Option RuntimeRow
  unfolding get
  command_audit_row e = command_row (shown_key (get "type" e.action)) (cut_response e.response)

unfoldable pub error_audit_row : String → RuntimeRow
error_audit_row reason = record {
  document_naam = "onbekend";
  actie = runtime_llm_error;
  resultaat = "error=" & prefix 200 (reason or "unknown");
}

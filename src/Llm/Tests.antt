-- ===== src/Llm/Tests.antt =====
-- The theorems on the LangGraph back end at a question on the rules of the road.
use virtual_helmsman.Prelude.{
  ◌+◌, ◌≤◌, min, String, chars, ◌≡◌, refl, true, false, ◌||◌, some, none, List, [], ◌∷◌, ◌++◌,
  length, text_eq, if◌then◌else◌, Option,
}
use virtual_helmsman.Prelude.Int.{pos}
use virtual_helmsman.Json.{Json, int, str, arr, obj, cons, nil, Fields, end, field}
use virtual_helmsman.Simulator.{stop}
use virtual_helmsman.Simulator.Mock.{MockSimulatorClient, mock_client}
use virtual_helmsman.Actions.Schema.{Decoder, Loaded, loaded_json, decode_error}
use virtual_helmsman.Actions.Dispatch.{Printer, bridge_lost}
use virtual_helmsman.Actions.Processor.{
  response_start, llm_text, response_end, Processor, process_frames,
}
use virtual_helmsman.Kb.Store.{AuditRow, empty_store}
use virtual_helmsman.Llm.Envelopes.{error_envelope, answer_envelope, to_json}
use virtual_helmsman.Llm.Fence.{parse_intent}
use virtual_helmsman.Llm.Retrieval.{
  Payload, QueryPoint, Hit, hit_of, parse_rerank_indices, apply_rerank,
}
use virtual_helmsman.Llm.Retrieval.Indices.{AllFrom, apply_rerank_bounds}
use virtual_helmsman.Llm.Neighbours.{contains, merge_neighbours}
use virtual_helmsman.Llm.Neighbours.Merge.{keys, named_keys, Distinct, merge_neighbours_lem}
use virtual_helmsman.Llm.Answer.{parse_rag_answer}
use virtual_helmsman.Llm.Answer.Citation.{Stands, citation_reliable_lem}
use virtual_helmsman.Llm.Graph.{
  Attempt, returned, thrown, ChatModel, classify_llm, command_llm, rerank_llm, answer_llm,
  LlmConfig, LlmServices, World, runner,
}
use virtual_helmsman.Llm.Graph.Calls.{calls-runner}
use virtual_helmsman.Llm.Service.{graph_failed, run_turn, process_frame, llm_context}
use virtual_helmsman.Llm.Service.Audited.{IsActieOf, run_turn_audits}
use virtual_helmsman.Llm.Service.Replies.{failed_turn_spoken, question_keeps_ship}

abbrev payload : Payload
payload = record {
  text = "Give way to starboard.";
  filename = some "colregs.pdf";
  page = some 4;
  chunk_id = some "chunk_001";
  document_type = "rules";
  document_summary = "";
}

abbrev point : QueryPoint
point = record { score = none; payload = payload }

abbrev hits : List Hit
hits = hit_of (some 1) point ∷ []

abbrev output : String
output = "Give way.\n\nSource: colregs.pdf, page 4 (chunk_001)"

abbrev reply_json : Json
reply_json =
    obj (field "answer" (str " Give way. ") (field "source_chunk_id" (str "chunk_001") end))

-- the texts that are JSON in the examples
abbrev loads : String → Option Json
loads s =
    if text_eq s "REPLY"
    then some reply_json
    else if text_eq s "TOP"
    then some (obj (field "top_3" (arr (cons (int (pos 1)) (cons (int (pos 9)) nil))) end))
    else if text_eq s "{ANSWER}"
    then some (to_json (answer_envelope output))
    else none

abbrev reply_by : ChatModel → Attempt String
reply_by classify_llm = returned "QUESTION"
reply_by command_llm = thrown "Connection error."
reply_by rerank_llm = returned "TOP"
reply_by answer_llm = returned "REPLY"

abbrev services : LlmServices
services = record {
  invoke = λ calls model system human. reply_by model;
  embed = λ calls text. returned (pos 1 ∷ []);
  query = λ calls embedding text top_k. returned (point ∷ []);
  scroll = λ calls filename ids. none;
  accepts = λ row s. true;
  now = λ s. "2026-01-01T00:00:00Z";
  loads = loads;
  to_str = λ v. "";
  not_sliced = λ v. "object is not subscriptable";
}

abbrev config : LlmConfig
config = record {
  commands_only = false;
  system_prompt = "";
  rag_system_prompt = "";
  has_qdrant_url = true;
  retrieval_top_k = 10;
  rerank = true;
  expansion = true;
  audit_enabled = true;
}

abbrev commands : LlmConfig
commands = record config { commands_only = true }

abbrev world : World
world = record { calls = []; store = empty_store }

abbrev as_loaded : Option Json → Loaded
as_loaded none = decode_error
as_loaded (some v) = loaded_json v

abbrev decoder : Decoder
decoder = record { float_of = λ v. none; int_of = λ v. none; loads = λ s. as_loaded (loads s) }

abbrev printer : Printer
printer = record { show_whole = λ x. "12"; show_tenth = λ x. "1.2" }

abbrev ship : MockSimulatorClient
ship = record {
  heading_deg = pos 900;
  engine_order = stop;
  rudder_angle_deg = pos 0;
  command_history = [];
  now = 7;
}

abbrev processor : Processor (mock_client 10)
processor = record { parts = []; capturing = false; ship = ship; bus = none }

calls-runner_example : length (runner services config "Who gives way?" world).1.calls ≤ 0 + 8
calls-runner_example = calls-runner services config "Who gives way?" world

run_turn_audits_example :
    (row : AuditRow) × ((run_turn services config "Who gives way?" world).1.store.audit
      ≡ [] ++ row ∷ [])
    × IsActieOf (runner services config "Who gives way?" world).0 row.actie
run_turn_audits_example =
    run_turn_audits services config "Who gives way?" world refl (λ row s. refl)

apply_rerank_bounds_example :
    (length (apply_rerank hits (parse_rerank_indices loads "TOP" (length hits))) ≤ 3)
    × (min 1 (length hits)
        ≤ length (apply_rerank hits (parse_rerank_indices loads "TOP" (length hits))))
    × AllFrom hits (apply_rerank hits (parse_rerank_indices loads "TOP" (length hits)))
apply_rerank_bounds_example = apply_rerank_bounds loads "TOP" hits

merge_neighbours_lem_example :
    Distinct (keys (merge_neighbours hits (point ∷ [])))
    × (contains "x" (keys (merge_neighbours hits (point ∷ [])))
        ≡ (contains "x" (keys hits) || contains "x" (named_keys (point ∷ []))))
merge_neighbours_lem_example =
    merge_neighbours_lem hits (point ∷ []) "x" (("colregs.pdf", refl), tt)

citation_reliable_lem_example :
    (id : String) × (c : Hit) × ((parse_rag_answer loads "REPLY" hits).source_chunk_id ≡ some id)
    × ((parse_rag_answer loads "REPLY" hits).source_chunk ≡ some c)
    × Stands hits id c
    × ((parse_rag_answer loads "REPLY" hits).parse_failure ≡ false)
unfolding parse_rag_answer
citation_reliable_lem_example = citation_reliable_lem loads "REPLY" hits refl

abbrev user_says : String → List Fields
user_says text = field "role" (str "user") (field "content" (str text) end) ∷ []

-- `json.dumps` on the envelopes of the examples
abbrev dumps : Json → String
dumps (obj (field k a (field l (str s) end))) = if text_eq s output then "{ANSWER}" else "{LOST}"
dumps v = "{}"

question_keeps_ship_example :
    (spoken : String) × (s' : Processor (mock_client 10)) × (process_frames 10 decoder printer
        (mock_client 10)
        (process_frame services config dumps (llm_context (user_says "Who gives way?")) world).0
        processor
      ≡ some (response_start ∷ llm_text spoken ∷ response_end ∷ [], s'))
    × (s'.ship ≡ ship)
unfolding process_frame run_turn parse_intent
question_keeps_ship_example =
    question_keeps_ship services config 10 decoder printer (mock_client 10) dumps
      (user_says "Who gives way?") "Who gives way?" "QUESTION" (chars "ANSWER") world processor refl
      refl refl refl refl refl refl

abbrev failing : Json
unfolding error_envelope
failing = to_json (error_envelope (graph_failed "Connection error.") bridge_lost)

abbrev failed_decoder : Decoder
failed_decoder = record decoder {
  loads = λ s. if text_eq s "{LOST}" then loaded_json failing else decode_error;
}

failed_turn_spoken_example :
    process_frames 10 failed_decoder printer
      (mock_client 10)
      (process_frame services commands dumps (llm_context (user_says "port ten")) world).0
      processor
    ≡ some (response_start ∷ llm_text bridge_lost ∷ response_end ∷ [], processor)
unfolding process_frame runner error_envelope
failed_turn_spoken_example =
    failed_turn_spoken services commands 10 failed_decoder printer (mock_client 10) dumps
      (user_says "port ten") "port ten" "Connection error." (chars "LOST") world processor refl refl
      refl refl refl

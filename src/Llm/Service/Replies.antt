-- ===== src/Llm/Service/Replies.antt =====
-- The text that the service pushes, on its way through the processor of the actions.
use virtual_helmsman.Prelude.{
  subst, sym, ℕ, Char, String, from_chars, ◌≡◌, refl, ap, true, false, some, List, [], ◌∷◌, strip,
  truthy,
}
use virtual_helmsman.Json.{Json, Fields}
use virtual_helmsman.Simulator.{SimulatorClient}
use virtual_helmsman.Events.{assistant_reply, action_refused}
use virtual_helmsman.Actions.Schema.{
  Decoder, loaded_json, HelmsmanResponse, error, validate_response, schema_code,
}
use virtual_helmsman.Actions.Schema.Braced.{braced}
use virtual_helmsman.Actions.Dispatch.{Printer, bridge_lost}
use virtual_helmsman.Actions.Processor.{
  response_start, response_end, llm_text, Processor, process_frames, publish_to,
}
use virtual_helmsman.Actions.Processor.Asides.{
  IsAside, process_frames-aside, spoken_line, after_aside,
}
use virtual_helmsman.Llm.Fence.{question, parse_intent}
use virtual_helmsman.Llm.Envelopes.{Envelope, to_json, error_envelope, answer_envelope}
use virtual_helmsman.Llm.Retrieval.{Hit}
use virtual_helmsman.Llm.Answer.{build_rag_user, format_question_output, parse_rag_answer}
use virtual_helmsman.Llm.Graph.{
  Attempt, returned, thrown, Turn, after, LlmConfig, LlmServices, World, classify_llm,
  classify_system, classify_node, question_path, answer_node, retrieve_node, select_node,
  expand_node, ask, runner, answer_llm, noted, invoked, route,
}
use virtual_helmsman.Llm.Service.{
  graph_failed, run_turn, mapped, process_frame, llm_context, latest_user_text,
}

-- Where a result comes of the answer node.
abbrev Answers : Attempt Envelope × World → Type 0
Answers (returned e, w) = (output : String) × (e ≡ answer_envelope output)
Answers (thrown reason, w) = Unit

after-Answers :
    {A : Type 0} (r : Attempt A × World) (f : A → Turn Envelope)
    → ((a : A) (w : World) → Answers (f a w))
    → Answers (after r f)
after-Answers (returned a, w) f h = h a w
after-Answers (thrown reason, w) f h = tt

module _ (svc : LlmServices) (config : LlmConfig) where
  answer_node-Answers :
      (text : String) (chunks : List Hit) (w : World)
      → Answers (answer_node svc config text chunks w)
  unfolding answer_node
  answer_node-Answers text chunks w =
      after-Answers
        (ask svc config answer_llm config.rag_system_prompt (build_rag_user text chunks) w) _
        λ content v. (format_question_output (parse_rag_answer svc.loads content chunks), refl)

  question_path-Answers : (text : String) (w : World) → Answers (question_path svc config text w)
  unfolding question_path
  question_path-Answers text w = after-Answers (retrieve_node svc config text w) _ λ chunks v.
      after-Answers (select_node svc config text chunks v) _ λ winners u.
        after-Answers (expand_node svc config winners u) _
          λ expanded t. answer_node-Answers text expanded t

  classified :
      (text content : String) (w : World)
      → parse_intent content ≡ question
      → Answers (route svc config text (parse_intent content) w)
  classified text content w g = rw g (question_path-Answers text w)

  runner_question-Answers :
      (text content : String) (w : World)
      → config.commands_only ≡ false
      → svc.invoke w.calls classify_llm classify_system text ≡ returned content
      → parse_intent content ≡ question
      → Answers (runner svc config text w)
  unfolding runner classify_node
  runner_question-Answers text content w o e g =
      simp (o, e) (classified text content (noted (invoked classify_llm classify_system text) w) g)

  -- The envelope of a refusal or an answer.
  abbrev IsAsideEnvelope : ℕ → Decoder → Envelope → Type 0
  IsAsideEnvelope unit d e =
      (reply : HelmsmanResponse) × (validate_response unit d (to_json e) ≡ some reply)
      × IsAside reply.action

  mapped_aside :
      (unit : ℕ) (d : Decoder) (r : Attempt Envelope × World)
      → Answers r
      → IsAsideEnvelope unit d (mapped svc config r).0
  unfolding schema_code error_envelope answer_envelope
  mapped_aside unit d (returned e, w) (output, h) =
      subst (IsAsideEnvelope unit d) (sym h) (_, refl, tt)
  mapped_aside unit d (thrown reason, w) h = (_, refl, tt)

  thrown_mapped :
      (reason : String) (r : Attempt Envelope × World)
      → r.0 ≡ thrown reason
      → (mapped svc config r).0 ≡ error_envelope (graph_failed reason) bridge_lost
  thrown_mapped reason (a, w) h = ap (λ a. (mapped svc config (a, w)).0) h

  module _ (unit : ℕ) (d : Decoder) (p : Printer) (c : SimulatorClient)
      (dumps : Json → String) where
    -- A failed turn is spoken as the loss of the bridge, and published as a refusal with the reason:
    -- where the graph raises an exception, and `json.loads` reads the envelope back from the text
    -- between braces that `json.dumps` wrote, the ship and what is shared besides are as before.
    pub failed_turn_spoken :
        (messages : List Fields) (text reason : String) (body : List Char) (w : World)
        (s : Processor c)
        → latest_user_text messages ≡ some text
        → truthy text ≡ true
        → (runner svc config text w).0 ≡ thrown reason
        → dumps (to_json (error_envelope (graph_failed reason) bridge_lost))
          ≡ from_chars (braced body)
        → d.loads (from_chars (braced body))
          ≡ loaded_json (to_json (error_envelope (graph_failed reason) bridge_lost))
        → process_frames unit d p c (process_frame svc config dumps (llm_context messages) w).0 s
          ≡ some (
            response_start ∷ llm_text bridge_lost ∷ response_end ∷ [],
            record s {
              parts = [];
              capturing = false;
              bus = publish_to s.bus (
                  assistant_reply bridge_lost
                  ∷ action_refused "bridge_error"
                      (graph_failed reason)
                      "Check that the LM Studio and Qdrant services are running and reachable at the configured URLs."
                  ∷ []);
            },
          )
    unfolding process_frame run_turn schema_code error_envelope strip
    failed_turn_spoken messages text reason body w s e t h g l =
        let line =
          process_frames-aside unit d p c body
            (record {
              action =
                  error "bridge_error" (graph_failed reason)
                    "Check that the LM Studio and Qdrant services are running and reachable at the configured URLs.";
              response = bridge_lost;
            })
            s tt (_, l, refl) in
        rw (e, t, thrown_mapped reason (runner svc config text w) h, g) line

    -- A question never moves the ship: where the classifier takes the user's text for a question,
    -- whether the turn is answered or fails, one line is spoken and the ship is as it was, provided
    -- that `json.loads` reads the turn's envelope back from the text between braces that
    -- `json.dumps` wrote.
    pub question_keeps_ship :
        (messages : List Fields) (text content : String) (body : List Char) (w : World)
        (s : Processor c)
        → latest_user_text messages ≡ some text
        → truthy text ≡ true
        → config.commands_only ≡ false
        → svc.invoke w.calls classify_llm classify_system text ≡ returned content
        → parse_intent content ≡ question
        → dumps (to_json (run_turn svc config text w).0) ≡ from_chars (braced body)
        → d.loads (from_chars (braced body)) ≡ loaded_json (to_json (run_turn svc config text w).0)
        → (spoken : String) × (s' : Processor c) × (process_frames unit d p c
              (process_frame svc config dumps (llm_context messages) w).0
              s
            ≡ some (response_start ∷ llm_text spoken ∷ response_end ∷ [], s'))
          × (s'.ship ≡ s.ship)
    unfolding process_frame run_turn
    question_keeps_ship messages text content body w s e t o i q g l =
        let (reply, v, a) =
          mapped_aside unit d (runner svc config text w)
            (runner_question-Answers text content w o i q) in
        let line = process_frames-aside unit d p c body reply s a (_, l, v) in
        (
          spoken_line reply,
          after_aside unit d p c reply (record s { parts = []; capturing = false }),
          rw (e, t, g) line,
          refl,
        )

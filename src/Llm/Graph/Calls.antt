-- ===== src/Llm/Graph/Calls.antt =====
-- The calls that a turn makes of the services.
use virtual_helmsman.Prelude.{
  ℕ, suc, ◌+◌, ◌≤◌, ◌≡◌, refl, ap, true, Option, none, some, List, [], ◌∷◌, ◌++◌, length,
  length-append, Bool-cases, not, ◌||◌, inl, inr, arith, String,
}
use virtual_helmsman.Llm.Fence.{Intent, command, question}
use virtual_helmsman.Llm.Envelopes.{Envelope, RuntimeRow, command_envelope}
use virtual_helmsman.Llm.Retrieval.{Hit, build_rerank_user}
use virtual_helmsman.Llm.Retrieval.Indices.{apply_rerank_bounds, length-rrf_top3}
use virtual_helmsman.Llm.Neighbours.{Group, neighbour_ids}
use virtual_helmsman.Llm.Answer.{
  RagAnswer, parse_rag_answer, build_rag_user, question_audit_row, format_question_output,
}
use virtual_helmsman.Llm.Graph.{
  Attempt, returned, thrown, Call, invoked, command_llm, answer_llm, LlmConfig, LlmServices, World,
  ChatModel, rerank_llm, classify_llm, classify_system, rerank_system, embedded, scrolled,
  found_or_none, embed_query, hybrid_query, has_chunks, noted, Turn, after, audit, ask,
  classify_node, command_node, retrieve_node, select_node, expand_node, answer_node,
  conclude_answer, audit_command, question_path, route, runner, scroll_neighbours, scroll_group,
}
use virtual_helmsman.Llm.Graph.Bounded.{
  Bounded, Any, Bounded-widen, after-Bounded, Bounded-calls, length-neighbour_ids, AtMostThree,
}

module _ (svc : LlmServices) (config : LlmConfig) where
  noted-Bounded :
      {A : Type 0} (c : Call) (a : Attempt A) (w : World)
      → Bounded 1 Any (length w.calls) (a, noted c w)
  noted-Bounded c (returned a) w = (omega (arith, length-append w.calls (c ∷ [])), tt)
  noted-Bounded c (thrown reason) w = omega (arith, length-append w.calls (c ∷ []))

  ask_then :
      {B : Type 0} (Q : B → Type 0) (n : ℕ) (model : ChatModel) (system human : String) (w : World)
      (f : String → Turn B)
      → ((a : String) (w : World) → Bounded n Q (length w.calls) (f a w))
      → Bounded (1 + n) Q (length w.calls) (after (ask svc config model system human w) f)
  ask_then Q n model system human w f g =
      after-Bounded Any Q 1 n (length w.calls) (ask svc config model system human w) f
        (noted-Bounded (invoked model system human) (svc.invoke w.calls model system human) w)
        λ a v _. g a v

  retrieve_node-Bounded :
      (text : String) (w : World) → Bounded 2 Any (length w.calls) (retrieve_node svc config text w)
  unfolding retrieve_node
  retrieve_node-Bounded text w = elim (Bool-cases config.has_qdrant_url) [
    | inl e ↦ rw e (
        after-Bounded Any Any 1 1 (length w.calls) (embed_query svc config text w) _
          (noted-Bounded (embedded text) (svc.embed w.calls text) w)
          λ embedding v _.
            after-Bounded Any Any 1 0 (length v.calls)
              (hybrid_query svc config embedding text config.retrieval_top_k v) _
              (noted-Bounded _ (svc.query v.calls embedding text config.retrieval_top_k) v)
              λ points u _. (omega arith, tt))
    | inr e ↦ rw e (omega arith)
  ]

  select_node-Bounded :
      (text : String) (chunks : List Hit) (w : World)
      → Bounded 1 AtMostThree (length w.calls) (select_node svc config text chunks w)
  unfolding select_node
  select_node-Bounded text chunks w =
      elim (Bool-cases (not config.rerank || not (has_chunks chunks))) [
        | inl e ↦ rw e (omega arith, length-rrf_top3 chunks)
        | inr e ↦ rw e (
            ask_then AtMostThree 0 rerank_llm rerank_system (build_rerank_user text chunks) w _
              λ content v. (omega arith, (apply_rerank_bounds svc.loads content chunks).0))
      ]

  scroll_group-Bounded :
      (filename : String) (ids : List String) (w : World)
      → Bounded 1 Any (length w.calls) (scroll_group svc config filename ids w)
  scroll_group-Bounded filename [] w = (omega arith, tt)
  scroll_group-Bounded filename (id ∷ ids) w =
      noted-Bounded (scrolled filename (id ∷ ids))
        (returned (found_or_none (svc.scroll w.calls filename (id ∷ ids)))) w

  scroll_neighbours-Bounded :
      (gs : List Group) (w : World)
      → Bounded (length gs) Any (length w.calls) (scroll_neighbours svc config gs w)
  unfolding scroll_neighbours
  scroll_neighbours-Bounded [] w = (omega arith, tt)
  scroll_neighbours-Bounded (g ∷ gs) w =
      Bounded-widen Any (1 + (length gs + 0)) (suc (length gs)) (length w.calls) (length w.calls) _
        (omega arith)
        (after-Bounded Any Any 1 (length gs + 0) (length w.calls)
          (scroll_group svc config g.filename g.ids w) _ (scroll_group-Bounded g.filename g.ids w)
          λ points v _.
            after-Bounded Any Any (length gs) 0 (length v.calls) (scroll_neighbours svc config gs v)
              _ (scroll_neighbours-Bounded gs v) λ more u _. (omega arith, tt))

  expand_node-Bounded :
      (winners : List Hit) (w : World)
      → length winners ≤ 3
      → Bounded 3 Any (length w.calls) (expand_node svc config winners w)
  unfolding expand_node
  expand_node-Bounded winners w h = elim (Bool-cases config.expansion) [
    | inl e ↦ simp e (
        Bounded-widen Any (length (neighbour_ids winners) + 0) 3 (length w.calls) (length w.calls) _
          (omega (arith, length-neighbour_ids winners))
          (after-Bounded Any Any (length (neighbour_ids winners)) 0 (length w.calls)
            (scroll_neighbours svc config (neighbour_ids winners) w) _
            (scroll_neighbours-Bounded (neighbour_ids winners) w) λ points v _. (omega arith, tt)))
    | inr e ↦ simp e (omega arith, tt)
  ]

  audit-calls : (row : RuntimeRow) (w : World) → (audit svc config row w).calls ≡ w.calls
  unfolding audit
  audit-calls row w = ground arith

  audit_command-calls :
      (envelope : Envelope) (row : Option RuntimeRow) (w : World)
      → (audit_command svc config envelope row w).1.calls ≡ w.calls
  audit_command-calls envelope none w = refl
  audit_command-calls envelope (some row) w = audit-calls row w

  same-Bounded :
      (r : Attempt Envelope × World) (old : ℕ) → length r.1.calls ≡ old → Bounded 0 Any old r
  same-Bounded (returned a, w) old e = (omega arith, tt)
  same-Bounded (thrown reason, w) old e = omega arith

  command_node-Bounded :
      (text : String) (w : World) → Bounded 1 Any (length w.calls) (command_node svc config text w)
  unfolding command_node
  command_node-Bounded text w =
      ask_then Any 0 command_llm config.system_prompt text w _ λ content v.
        same-Bounded _ (length v.calls)
          (ap length (audit_command-calls (command_envelope svc.loads content) _ v))

  concluded :
      (parsed : RagAnswer) (w : World)
      → Bounded 0 Any (length w.calls) (conclude_answer svc config parsed w)
  concluded parsed w =
      same-Bounded (conclude_answer svc config parsed w) (length w.calls)
        (ap length (audit-calls (question_audit_row parsed (format_question_output parsed)) w))

  answer_node-Bounded :
      (text : String) (chunks : List Hit) (w : World)
      → Bounded 1 Any (length w.calls) (answer_node svc config text chunks w)
  unfolding answer_node
  answer_node-Bounded text chunks w =
      ask_then Any 0 answer_llm config.rag_system_prompt (build_rag_user text chunks) w _
        λ content v. concluded (parse_rag_answer svc.loads content chunks) v

  question_path-Bounded :
      (text : String) (w : World) → Bounded 7 Any (length w.calls) (question_path svc config text w)
  unfolding question_path
  question_path-Bounded text w =
      after-Bounded Any Any 2 5 (length w.calls) (retrieve_node svc config text w) _
        (retrieve_node-Bounded text w)
        λ chunks v _.
          after-Bounded AtMostThree Any 1 4 (length v.calls) (select_node svc config text chunks v)
            _ (select_node-Bounded text chunks v)
            λ winners u three.
              after-Bounded Any Any 3 1 (length u.calls) (expand_node svc config winners u) _
                (expand_node-Bounded winners u three)
                λ expanded t _. answer_node-Bounded text expanded t

  route-Bounded :
      (text : String) (intent : Intent) (w : World)
      → Bounded 7 Any (length w.calls) (route svc config text intent w)
  route-Bounded text command w =
      Bounded-widen Any 1 7 (length w.calls) (length w.calls) (command_node svc config text w)
        (omega arith) (command_node-Bounded text w)
  route-Bounded text question w = question_path-Bounded text w

  runner-Bounded :
      (text : String) (w : World) → Bounded 8 Any (length w.calls) (runner svc config text w)
  unfolding runner classify_node
  runner-Bounded text w = elim (Bool-cases config.commands_only) [
    | inl e ↦ simp e (
        Bounded-widen Any 1 8 (length w.calls) (length w.calls) (command_node svc config text w)
          (omega arith) (command_node-Bounded text w))
    | inr e ↦ simp e (
        after-Bounded Any Any 1 7 (length w.calls) (classify_node svc config text w) _
          (ask_then Any 0 classify_llm classify_system text w _ λ content v. (omega arith, tt))
          λ intent v _. route-Bounded text intent v)
  ]

  -- A turn makes at most eight calls of the services, whatever they answer: one to classify, one
  -- for the embedding, one for the query, one to rerank, three to scroll and one for the answer.
  pub calls-runner :
      (text : String) (w : World) → length (runner svc config text w).1.calls ≤ length w.calls + 8
  calls-runner text w =
      Bounded-calls Any 8 (length w.calls) (runner svc config text w) (runner-Bounded text w)

  after_asked-calls :
      (a : Attempt String) (w : World) (f : String → Turn Envelope)
      → ((content : String) → (f content w).1.calls ≡ w.calls)
      → (after (a, w) f).1.calls ≡ w.calls
  after_asked-calls (returned content) w f h = h content
  after_asked-calls (thrown reason) w f h = refl

  -- In the mode for commands only a turn makes one call, that of the command parser with the
  -- user's text: neither the classifier nor any service of the retrieval is reached.
  calls_commands_only :
      (text : String) (w : World)
      → config.commands_only ≡ true
      → (runner svc config text w).1.calls
        ≡ w.calls ++ invoked command_llm config.system_prompt text ∷ []
  unfolding runner command_node
  calls_commands_only text w e = rw e (
      after_asked-calls (svc.invoke w.calls command_llm config.system_prompt text)
        (noted (invoked command_llm config.system_prompt text) w) _
        λ content. audit_command-calls (command_envelope svc.loads content) _ _)

-- ===== src/Llm/Graph.antt =====
-- The graph of a turn: graph.py, with the request loop of retrieval.py. A coroutine is a function of
-- the world, which holds the calls made so far and the database of the audit log. Each node of the
-- graph is one function; an edge is the binding of one node's result by the next.
pub mod Bounded
pub mod Calls
use virtual_helmsman.Prelude.{
  ℕ, ◌*◌, String, Bool, true, false, not, ◌||◌, Option, none, some, List, [], ◌∷◌, ◌++◌, length,
  if◌then◌else◌,
}
use virtual_helmsman.Prelude.Int.{ℤ}
use virtual_helmsman.Json.{Json}
use virtual_helmsman.Kb.Store.{IngestionStore, insert_audit}
use virtual_helmsman.Llm.Fence.{Intent, command, question, parse_intent}
use virtual_helmsman.Llm.Envelopes.{
  Envelope, RuntimeRow, answer_envelope, command_envelope, command_audit_row,
}
use virtual_helmsman.Llm.Retrieval.{
  QueryPoint, Hit, map_qdrant_points, rrf_top3, parse_rerank_indices, apply_rerank,
  build_rerank_user,
}
use virtual_helmsman.Llm.Neighbours.{Group, neighbour_ids, merge_neighbours}
use virtual_helmsman.Llm.Answer.{
  RagAnswer, build_rag_user, parse_rag_answer, format_question_output, question_audit_row,
}

abbrev pub classify_system : String
classify_system =
    "Classify the bridge message as one word. Reply COMMAND if it is an order to the helm or engine telegraph -- rudder orders like 'port ten', 'starboard five', 'midships', 'hard a port'; engine orders like 'half ahead', 'stop engine'; heading, autopilot or anchor orders -- or a vessel status request about our own ship right now, like 'what is our heading', 'report speed', 'where are we'. Reply QUESTION if it asks for information about maritime rules, COLREGS, VTS, harbour regulations or navigation guidance. Reply with only one word: COMMAND or QUESTION."

abbrev pub rerank_system : String
rerank_system =
    "You rank document passages by relevance to a question. Reply with ONLY a JSON object in the form {\"top_3\": [i, j, k]} where i, j, k are the 1-based labels of the three most relevant passages from the list below, in order of decreasing relevance. No prose, no markdown, just the JSON object."

-- The result of an awaited call, or the text of the exception it raises.
pub data Attempt (A : Type 0) : Type 0 where
  returned : A → Attempt A
  thrown : String → Attempt A

pub data ChatModel : Type 0 where
  classify_llm command_llm rerank_llm answer_llm : ChatModel

-- A call of a service outside.
pub data Call : Type 0 where
  invoked : ChatModel → (system human : String) → Call
  embedded : String → Call
  queried : (embedding : List ℤ) → (query : String) → (prefetch top_k : ℕ) → Call
  scrolled : (filename : String) → (ids : List String) → Call

pub record LlmConfig : Type 0 where
  pub commands_only : Bool
  pub system_prompt : String
  pub rag_system_prompt : String
  pub has_qdrant_url : Bool
  pub retrieval_top_k : ℕ
  pub rerank : Bool
  pub expansion : Bool
  pub audit_enabled : Bool

-- What is outside the repository. A service answers by the calls made before; `accepts` says
-- whether the database takes a row, `scroll` gives `none` where the request fails, and
-- `not_sliced` is the text of the exception for a value that cannot be cut.
pub record LlmServices : Type 0 where
  pub invoke : List Call → ChatModel → (system human : String) → Attempt String
  pub embed : List Call → String → Attempt (List ℤ)
  pub query : List Call → List ℤ → String → ℕ → Attempt (List QueryPoint)
  pub scroll : List Call → String → List String → Option (List QueryPoint)
  pub accepts : RuntimeRow → IngestionStore → Bool
  pub now : IngestionStore → String
  pub loads : String → Option Json
  pub to_str : Json → String
  pub not_sliced : Json → String

pub record World : Type 0 where
  pub calls : List Call
  pub store : IngestionStore

abbrev pub Turn : Type 0 → Type 0
Turn A = World → Attempt A × World

-- A step that no exception leaves.
abbrev pub after : {A B : Type 0} → Attempt A × World → (A → Turn B) → Attempt B × World
after (returned a, w) f = f a w
after (thrown reason, w) f = (thrown reason, w)

infixl 5 ◌>>=◌
abbrev pub ◌>>=◌ : {A B : Type 0} → Turn A → (A → Turn B) → Turn B
◌>>=◌ m f w = after (m w) f

abbrev pub pure : {A : Type 0} → A → Turn A
pure a w = (returned a, w)

abbrev pub throw : {A : Type 0} → String → Turn A
throw reason w = (thrown reason, w)

abbrev pub noted : Call → World → World
noted c w = record w { calls = w.calls ++ c ∷ [] }

abbrev pub insert_row : (now : String) → RuntimeRow → IngestionStore → IngestionStore
insert_row now row s = (insert_audit row.document_naam row.actie row.resultaat now s).1

abbrev pub found_or_none : Option (List QueryPoint) → List QueryPoint
found_or_none none = []
found_or_none (some ps) = ps

abbrev pub has_chunks : List Hit → Bool
has_chunks [] = false
has_chunks (h ∷ hs) = true

module _ (svc : LlmServices) (config : LlmConfig) where
  abbrev pub ask : ChatModel → (system human : String) → Turn String
  ask model system human w =
      (svc.invoke w.calls model system human, noted (invoked model system human) w)

  abbrev pub embed_query : String → Turn (List ℤ)
  embed_query text w = (svc.embed w.calls text, noted (embedded text) w)

  -- each prefetch takes twice the limit
  abbrev pub hybrid_query : List ℤ → String → ℕ → Turn (List QueryPoint)
  hybrid_query embedding text top_k w =
      (svc.query w.calls embedding text top_k, noted (queried embedding text (top_k * 2) top_k) w)

  abbrev pub scroll_group : String → List String → Turn (List QueryPoint)
  scroll_group filename [] w = (returned [], w)
  scroll_group filename (id ∷ ids) w = (
    returned (found_or_none (svc.scroll w.calls filename (id ∷ ids))),
    noted (scrolled filename (id ∷ ids)) w,
  )

  unfoldable pub scroll_neighbours : List Group → Turn (List QueryPoint)
  scroll_neighbours [] = pure []
  scroll_neighbours (g ∷ gs) = do
    points ← scroll_group g.filename g.ids
    more ← scroll_neighbours gs
    pure (points ++ more)

  -- `_audit`: a write that fails is logged, and nothing is raised
  unfoldable pub audit : RuntimeRow → World → World
  unfolding insert_audit
  audit row w =
      if config.audit_enabled
      then (if svc.accepts row w.store
          then record w { store = insert_row (svc.now w.store) row w.store }
          else w)
      else w

  abbrev audit_then : {A : Type 0} → RuntimeRow → A → Turn A
  audit_then row a w = (returned a, audit row w)

  unfoldable pub classify_node : String → Turn Intent
  unfolding parse_intent
  classify_node chat_input = do
    content ← ask classify_llm classify_system chat_input
    pure (parse_intent content)

  abbrev pub audit_command : Envelope → Option RuntimeRow → Turn Envelope
  audit_command envelope none = throw (svc.not_sliced envelope.response)
  audit_command envelope (some row) = audit_then row envelope

  abbrev pub conclude_command : Envelope → Turn Envelope
  conclude_command envelope = audit_command envelope (command_audit_row svc.to_str envelope)

  unfoldable pub command_node : String → Turn Envelope
  unfolding audit command_envelope command_audit_row
  command_node chat_input = do
    content ← ask command_llm config.system_prompt chat_input
    conclude_command (command_envelope svc.loads content)

  unfoldable pub retrieve_node : String → Turn (List Hit)
  unfolding map_qdrant_points
  retrieve_node chat_input =
      if config.has_qdrant_url
      then (do
        embedding ← embed_query chat_input
        points ← hybrid_query embedding chat_input config.retrieval_top_k
        pure (map_qdrant_points points))
      else throw "RAG question received but llm.qdrant_url is not configured."

  unfoldable pub select_node : String → List Hit → Turn (List Hit)
  unfolding rrf_top3 build_rerank_user parse_rerank_indices apply_rerank
  select_node chat_input chunks =
      if not config.rerank || not (has_chunks chunks) then pure (rrf_top3 chunks) else (do
        content ← ask rerank_llm rerank_system (build_rerank_user chat_input chunks)
        pure (apply_rerank chunks (parse_rerank_indices svc.loads content (length chunks))))

  unfoldable pub expand_node : List Hit → Turn (List Hit)
  unfolding neighbour_ids scroll_neighbours merge_neighbours
  expand_node winners =
      if config.expansion
      then (do
        points ← scroll_neighbours (neighbour_ids winners)
        pure (merge_neighbours winners points))
      else pure winners

  abbrev pub conclude_answer : RagAnswer → Turn Envelope
  conclude_answer parsed =
      audit_then (question_audit_row parsed (format_question_output parsed))
        (answer_envelope (format_question_output parsed))

  unfoldable pub answer_node : String → List Hit → Turn Envelope
  unfolding audit build_rag_user parse_rag_answer format_question_output question_audit_row
      answer_envelope
  answer_node chat_input chunks = do
    content ← ask answer_llm config.rag_system_prompt (build_rag_user chat_input chunks)
    conclude_answer (parse_rag_answer svc.loads content chunks)

  -- retrieve, select, expand, answer
  unfoldable pub question_path : String → Turn Envelope
  unfolding retrieve_node select_node expand_node answer_node
  question_path chat_input = do
    chunks ← retrieve_node chat_input
    winners ← select_node chat_input chunks
    expanded ← expand_node winners
    answer_node chat_input expanded

  abbrev pub route : String → Intent → Turn Envelope
  route chat_input command = command_node chat_input
  route chat_input question = question_path chat_input

  -- the compiled graph
  unfoldable pub runner : String → Turn Envelope
  unfolding command_node classify_node question_path
  runner chat_input =
      if config.commands_only
      then command_node chat_input
      else (do intent ← classify_node chat_input; route chat_input intent)

-- ===== src/Lib.antt =====
-- A model of the core of the virtual helmsman (the Python package voice_agent): a voice agent that
-- hears an order, has a language model turn it into a JSON action, carries the action out on a
-- ship simulator and speaks an acknowledgement, beside a knowledge base with a human review of
-- every chunk that is indexed.
--
-- The parts, and how they meet.
--   * Simulator (voice_agent/backends/simulator/base.py): telegraph positions, link states, the
--     ship's state, and the `SimulatorClient` protocol as a record of a state and three
--     operations. A raised SimulatorError is the reply `failed`.
--   * Simulator/Mock (mock.py): the in-memory client, with its command history.
--   * Simulator/Levers (real.py, `_LEVER_BY_ORDER` and `_order_from_lever`).
--   * Simulator/Real (real.py): the supervised link. Each block that runs under the session lock
--     is one function of the client's state; the vendored wrapper, which is not in the repository,
--     enters as what it answers: a snapshot, or an exception. Simulator/Real/Commands has
--     `_stage_and_confirm` and the commands; Simulator/Real/Delivery and Simulator/Real/Supervisor
--     have the theorems on delivery and on any sequence of steps of the link.
--   * Config (voice_agent/config.py): the blocks of the configuration, one module for each group of
--     them; Config/App is AppConfig with the overrides of the environment and the load of the file,
--     and Config/Runtimes the settings that the language model and the ingestion are given.
--     Config/Editor (voice_agent/api/config_router.py) has the routes that read and write the file,
--     and Config/Editor/Reload what a reload does to the environment.
--   * Backends (voice_agent/backends/*/factory.py): the factories, by the back end that a block names.
--   * Events (voice_agent/api/events.py): the event types and the bus with its bounded queues;
--     Events/Transcripts: the observer that publishes what the user said.
--   * Telemetry (voice_agent/telemetry.py): the publisher of the ship's state on the bus.
--   * Actions/Fence and Actions/Schema (voice_agent/actions/schema.py): the code fence, the action
--     vocabulary and its validation.
--   * Actions/Dispatch (dispatch.py): an action carried out on any `SimulatorClient`, with the
--     mapping from knots to a telegraph position.
--   * Actions/Processor (processor.py): the frame processor, which joins the pieces of a response,
--     resolves it with the schema and the dispatcher, and publishes the events of the turn on the
--     bus. An exception that is not caught ends a turn without a result.
--   * Kb/Chunking (voice_agent/kb/ingestion/chunking.py): the fixed-size strategy;
--     Kb/Chunking/Blocks: `_split_block`; Kb/Chunking/Paragraphs: the paragraph-aware strategy;
--     Kb/Chunking/Cleaning: `clean_pdf_text`.
--   * Kb/Metadata (metadata.py): the metadata of a chunk; Kb/Metadata/Review: the review decisions.
--   * Kb/Store (store.py): the two SQLite tables as lists of rows; Kb/Store/Batches: the pending rows
--     grouped for the review page.
--   * Kb/Engine (engine.py, qdrant.py): `resume`, from the decisions to the indexed points.
--   * Kb/Ingest (engine.py): `_run_ingest`, from an upload to the pending chunks of a batch.
--   * Kb/Documents (voice_agent/kb/documents.py): the listing of a collection, with its scroll, and
--     the deletion of a document.
--   * Kb/Review (voice_agent/kb/review.py): the upload, pending, resume and audit routes with their
--     status codes, over Kb/Ingest, Kb/Engine and Kb/Store.
--   * Metrics (voice_agent/metrics.py): the observer that stamps each turn and publishes its
--     latencies on the bus; Metrics/Conversation: the log of what was said.
--   * Pipeline (voice_agent/pipeline.py): the messages that the language model is shown, with typed
--     commands and the reset after a reply.
--   * Api/Control (voice_agent/api/control_router.py) and Api/Webrtc (webrtc.py): the text and
--     simulator routes, and the browser connections with the tasks of their pipelines.
--   * Llm (voice_agent/backends/llm/langgraph_helmsman/): Llm/Fence, Llm/Envelopes, Llm/Retrieval,
--     Llm/Neighbours and Llm/Answer are the pure functions of helpers.py; Llm/Graph is the graph of
--     a turn (graph.py, retrieval.py) as a monad over the calls made and the audit database;
--     Llm/Service is the frame processor (service.py), whose text is what Actions/Processor reads.
--   * Prelude and Json hold what the parts share: lists over native numbers, signed integers,
--     Python's text methods, and JSON values.
--
-- Numbers. A float is read as an exact multiple of 1 / unit, for any unit; levers as multiples of
-- 1 / (20 * unit), and the numbers of the configuration as multiples of 1 / (10 * unit). Rounding
-- is not modelled, so no theorem is about the last bit of a float. Instants, ages and time-outs of
-- the simulator link are numbers of ticks.
--
-- Fuel. `chunk_from` has one round more than the text has characters, and each round moves on by
-- 725 of them; `split_block` has one more than the length of its block, and its parts are shorter;
-- `hard_cut` has one more than what remains, and each round cuts a character or more; `show`, which
-- prints a number, has a round more than the number counts. The confirmation loop of a command runs
-- over the list of its rounds, and is still waiting where the list ends. `scroll_pages` has a round
-- more than its limit of points, and each round but the last finds one.
--
-- Parameters. `json.loads`, which returns a value, raises a JSONDecodeError or raises another
-- exception, and pydantic's conversions of numbers (Decoder), Python's `str` of a rounded float
-- (Printer), `datetime.fromisoformat` behind `_parse_ts`, the answers of the embedding and
-- vector services (Services), and `str` of a JSON value that is not a text. For the language
-- model: the answers of the chat models, of the embedding and of Qdrant, any of which may raise,
-- whether the database takes an audit row (LlmServices), `json.loads`, which is taken to raise
-- no exception there but a ValueError, and `json.dumps`. For an upload: the extraction of the
-- text and its summary (IngestServices), and the clock with the random batch id (Moment).
-- Qdrant's replies to a scroll, and `str.lower`, for the listing of the documents. For the
-- configuration: pydantic's lax conversions (Pydantic), the YAML library (Yaml), the
-- environment, the built-in prompts, what the disk does at a write, and `load_dotenv`. What the
-- WebRTC library and the assembly of a pipeline do at an offer, whether the cancellation of a
-- pipeline raises, and what the back ends' builders make.
--
-- Not modelled: the web server and the wiring of its routers, the assembly of the pipelines and the
-- speech back ends, the JSON schema of the configuration and the exec of a reload, the settings of
-- the documents page, logging and tracing, the percentiles of the session summary, and the time
-- stamps of events. They hand values to third-party libraries, or only report.
pub mod Prelude
pub mod Json
pub mod Simulator
pub mod Telemetry
pub mod Events
pub mod Actions
pub mod Kb
pub mod Metrics
pub mod Llm
pub mod Config
pub mod Backends
pub mod Pipeline
pub mod Api

-- ===== src/Llm.antt =====
-- voice_agent/backends/llm/langgraph_helmsman: the graph that routes a turn to the command parser or
-- to the retrieval and the answer, its pure helpers, and the service that runs it in the pipeline.
pub mod Fence
pub mod Envelopes
pub mod Retrieval
pub mod Neighbours
pub mod Answer
pub mod Graph
pub mod Service
mod Tests

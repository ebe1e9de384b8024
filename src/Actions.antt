-- ===== src/Actions.antt =====
-- voice_agent/actions: the schema of the helmsman's replies, the dispatch of an action to the
-- simulator and the frame processor between the language model and the speech synthesis.
pub mod Fence
pub mod Schema
pub mod Dispatch
pub mod Processor
mod Tests

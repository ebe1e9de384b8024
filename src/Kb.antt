-- ===== src/Kb.antt =====
-- voice_agent/kb/ingestion: chunking, metadata and review decisions, the store and the engine.
pub mod Chunking
pub mod Metadata
pub mod Store
pub mod Engine
pub mod Ingest
pub mod Documents
pub mod Review
mod Tests

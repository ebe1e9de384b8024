-- ===== src/Config.antt =====
-- voice_agent/config.py and the router over the configuration file.
pub mod Fields
pub mod Services
pub mod Llm
pub mod Simulator
pub mod Control
pub mod App
pub mod Runtimes
pub mod Editor
mod Tests

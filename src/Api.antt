-- ===== src/Api.antt =====
-- voice_agent/api: the control routes and the browser connections; the event bus is Events.
pub mod Control
pub mod Webrtc

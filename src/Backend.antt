-- ===== src/Backend.antt =====
-- backend-responder.py: the HTTP, FastCGI and SCGI backend of some profiles.
pub mod Modes
pub mod Plan
pub mod Socket
pub mod FastCgi
pub mod Body
pub mod Scgi
pub mod Http
pub mod Server

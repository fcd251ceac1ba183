-- ===== src/Transport.antt =====
-- internal/transport/http: the headers, the record of a request's states, and the chat handler.
pub mod Headers
pub mod Recorder
pub mod Chat
pub mod Auth
pub mod Verifying
pub mod Replay

-- ===== src/Sse.antt =====
-- src/domain/sse.rs: the parser of server-sent events.
pub mod Utf8
pub mod Frame
pub mod Buffer
pub mod Crlf
pub mod Drain
pub mod Stream
pub mod Chunks
pub mod Pull

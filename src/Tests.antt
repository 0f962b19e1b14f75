-- ===== src/Tests.antt =====
-- The theorems at concrete inputs, and runs of the definitions.
mod Sse
mod Router
mod Domain
mod Ir
mod Proxy
mod Streams

-- ===== src/Http.antt =====
-- apps/web/src/server/http: the bounded reading of the bodies of requests.
pub mod Body
mod Buffers
mod Bounds
mod Chunks
mod Tests

-- ===== src/RateLimit.antt =====
-- The request counters: the table that the limiters share, the assistant's limiter and that of the
-- sign-in.
pub mod Counter
pub mod Assistant
pub mod Auth
mod Windows
mod Quotas
mod Tests

-- ===== src/RateLimit.antt =====
-- The fixed-window rate limiter of packages/auth/src/rate-limit: the counter store in memory, the
-- rules, and the limiter over them.
pub mod Store
pub mod Rules
pub mod Limiter

-- ===== src/RateLimit.antt =====
-- internal/ratelimit: fixed-window limiters.
pub mod Limiter
pub mod Tests

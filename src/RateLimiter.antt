-- ===== src/RateLimiter.antt =====
-- The rate limiter: src/infrastructure/redis/rate-limiter.ts.
pub mod Policies
pub mod Limiter
pub mod Admission

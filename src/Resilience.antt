-- ===== src/Resilience.antt =====
-- python-glue/unified_ai/resilience: circuit breaker, token bucket and retry loop.
pub mod CircuitBreaker
pub mod RateLimiter
pub mod Retry

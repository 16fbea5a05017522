-- ===== src/Api.antt =====
-- python-glue/unified_ai/api/: the middleware that a request passes.
pub mod Csrf
pub mod Request
pub mod ApiKey
pub mod RateLimit
pub mod Stack
pub mod AuthRoutes
pub mod WebSocket

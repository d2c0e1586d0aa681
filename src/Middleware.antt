-- ===== src/Middleware.antt =====
-- The middlewares of dragon_voice/middleware. Each takes the handler that it wraps.
pub mod Http
pub mod RateLimit
pub mod Auth
pub mod Cors
pub mod SecurityHeaders
mod Tests

-- ===== src/Middleware.antt =====
-- internal/middleware: what stands between a request and its handler.
pub mod RateLimit

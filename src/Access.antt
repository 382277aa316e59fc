-- ===== src/Access.antt =====
-- internal/transport/http/middleware.go: what stands between a request and its handler.
pub mod Limiter
pub mod Keys
pub mod Auth
mod Tests

-- ===== src/Matrix.antt =====
-- server/matrix: the client of the Matrix homeserver.
pub mod Retry
pub mod RateLimit

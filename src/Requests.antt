-- ===== src/Requests.antt =====
-- middleware: rate limit, body limit, authentication and audit log.
pub mod RateLimit
pub mod BodyLimit
pub mod Auth
pub mod Daemon
pub mod Audit
pub mod Action
pub mod Naming
pub mod Redaction
mod Tests

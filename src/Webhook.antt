-- ===== src/Webhook.antt =====
-- alerting/safehttp.go: which webhook URLs a rule may hold, and which addresses are dialled.
pub mod Addr
pub mod Ranges
pub mod Validate
pub mod Safe
mod Tests

-- ===== src/Alerts.antt =====
-- services/alert_service.go
pub mod Rules
pub mod Fire
pub mod Owned
pub mod Effect
pub mod Scope
pub mod Resource
mod Tests

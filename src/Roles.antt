-- ===== src/Roles.antt =====
-- Global roles and their order (services/api/internal/models/models.go), and the console commands a
-- role may send (models/console_roles.go).
pub mod Weight
pub mod Console
pub mod Allowlist
mod Tests

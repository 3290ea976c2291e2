-- ===== src/Permissions.antt =====
-- services/permission_service.go and middleware/require_permission.go.
pub mod Keys
pub mod Service
pub mod Guard
pub mod Rule
pub mod Decide
pub mod Grants
pub mod Missing
pub mod Overrides
pub mod Access
mod Tests

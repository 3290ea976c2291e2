-- ===== src/Invitations.antt =====
-- services/invitation_service.go
pub mod Service
pub mod Accept
pub mod Grants
pub mod Escalation
pub mod Creation
pub mod History
pub mod Evolution
pub mod Once
mod Tests

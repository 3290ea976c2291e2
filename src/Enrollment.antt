-- ===== src/Enrollment.antt =====
-- services/enrollment_service.go
pub mod Service
pub mod Checks
pub mod Redeem
pub mod RoundTrip
mod Tests

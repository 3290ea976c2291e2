-- ===== src/Accounts.antt =====
-- services/auth_service.go and services/setup_service.go
pub mod Outside
pub mod Password
pub mod Tokens
pub mod Login
pub mod Refresh
pub mod Totp
pub mod Admin
pub mod Register
pub mod Setup
pub mod Owners
pub mod Targets
pub mod OwnedTargets
pub mod Protected
pub mod Stable
pub mod StableCalls
pub mod StableUsers
pub mod Calls
pub mod History
pub mod Spent
pub mod Rotation
pub mod Revoked
pub mod Found
pub mod PasswordChange
pub mod Issued
pub mod SignIn
pub mod SecondFactor
pub mod FirstOwner
pub mod SetupOnce
pub mod Issue
pub mod Renewal
mod Tests
mod SessionTests
mod SetupTests

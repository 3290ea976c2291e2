-- ===== src/Cron.antt =====
-- services/cron.go: cron expressions, and the next time that one matches.
pub mod Atoi
pub mod Field
pub mod Next
pub mod Values
pub mod Within
pub mod Exact
pub mod Search
mod Tests

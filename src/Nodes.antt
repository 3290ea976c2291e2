-- ===== src/Nodes.antt =====
-- services/node_service.go
pub mod Players
pub mod Service
pub mod Commands
pub mod Update
pub mod Calls
pub mod Acks
pub mod Heartbeat
pub mod Token
pub mod Hosting
mod Tests

-- ===== src/Address.antt =====
-- services/api/internal/daemon/host.go and validateNodeAddress of services/node_service.go: which
-- hosts and ports may become part of a daemon URL.
pub mod Validate
pub mod Safe
pub mod Filename
pub mod Download
mod Tests

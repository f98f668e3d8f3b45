-- ===== src/Backend.antt =====
-- backends/exec/exec_backend.go: the backend that runs the smartctl binary. Each child models one part
-- of it; the modules below those prove what that part guarantees.
pub mod State
pub mod Logging
pub mod Version
pub mod Setup
pub mod Retry
pub mod Info
pub mod Devices
pub mod Commands
pub mod Session
pub mod Documents

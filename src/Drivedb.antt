-- ===== src/Drivedb.antt =====
-- backends/exec/drivedb.go: the embedded drive database, and USB bridges in smartctl's messages.
pub mod Bridge
pub mod UsbIds
pub mod Table
pub mod Load
pub mod Lines
pub mod Shipped

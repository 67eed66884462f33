-- ===== src/Config.antt =====
-- The configuration of the monitor (daemon/src/monitor.cpp): the clients' files, and when they are
-- read again.
pub mod Load
pub mod Reload
pub mod Watch
pub mod Bounds
pub mod Files
pub mod First
pub mod Carry
pub mod Expiry

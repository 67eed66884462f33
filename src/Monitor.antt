-- ===== src/Monitor.antt =====
-- The monitor (daemon/src/monitor.h, daemon/src/monitor.cpp).
pub mod State
pub mod Sampling
pub mod Probing
pub mod Replies
pub mod Resolutions
pub mod Schedule
pub mod Rebuild

-- ===== src/Sender.antt =====
-- The sender of version 0.3 (src/sender_v03.rs).
pub mod Scan
pub mod Transfer
pub mod Inventory
pub mod Session
pub mod Retry
pub mod Complete

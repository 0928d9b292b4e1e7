-- ===== src/Receiver.antt =====
-- The receiver of version 0.3 (src/receiver_v03.rs).
pub mod Chunks
pub mod Sound
pub mod Steps
pub mod Persist
pub mod Transfer
pub mod Coverage
pub mod Complete
pub mod Prepare
pub mod Negotiation
pub mod Final

-- ===== src/Protocol.antt =====
-- The wire protocol (src/protocol): message types, frames and the payloads that they carry.
pub mod Message
pub mod Frame
pub mod Encoder
pub mod Decoder
pub mod Stream
pub mod Offer
pub mod Reject
pub mod Announcement
pub mod Resume
pub mod TransferId
pub mod V03
pub mod Payloads
pub mod Totality

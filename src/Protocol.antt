-- ===== src/Protocol.antt =====
-- The wire protocol of racelink/protocol/: packet bodies, rules and replies.
pub mod Packets
pub mod RfConfig
pub mod OffsetBody
pub mod Flags
pub mod ControlBody
pub mod Codec

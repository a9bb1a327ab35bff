-- ===== src/Payload.antt =====
-- src/payload: frames and packets.
pub mod Frame
pub mod Packet

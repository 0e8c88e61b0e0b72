-- ===== src/Smb2.antt =====
-- internal/smb2: packets and their fields.
pub mod Packet
pub mod Request
pub mod Response
mod Tests

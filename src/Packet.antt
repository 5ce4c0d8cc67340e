-- ===== src/Packet.antt =====
-- packet/ and servers/streams.py: the fixed header, the flags and the fields of packets.
pub mod Header
pub mod Flags
pub mod Fields
pub mod Payload

-- ===== src/Packet.antt =====
-- packet.go: the two headers on the wire, and the bitset of the fragments that have arrived.
pub mod Header
pub mod Fragment
mod Tests

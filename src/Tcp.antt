-- ===== src/Tcp.antt =====
-- The package sleepytcp: a pool of TCP connections to each host.
pub mod Queue
pub mod Caller
pub mod Host
pub mod System
pub mod Request
pub mod Client
mod Tests
pub mod Dial
pub mod Pool
pub mod Frame
pub mod Timer
